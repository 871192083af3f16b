-- ===== src/Engines/Ceilings.antt =====
-- server/engines/ceilings.py: the per-worker safety bounds and the check of one worker's share.
-- Rates and bounds are natural numbers of one unit (a millionth of an event per second or of a GB
-- per day); a negative configured bound stands as 0, which the code treats alike. Quotients are
-- exact fractions. The details' wording is not modelled.
pub mod Layers
pub mod Verdict
use stoker.Prelude.{
  ℕ, zero, suc, ◌+◌, ◌-◌, ◌*◌, ◌/◌, max, Bool, true, false, ◌&&◌, Option, none, some, List, [], ◌∷◌,
  ltb, ◌==◌, if◌then◌else◌, ◌≡◌, refl,
}
use stoker.Engines.Apportion.{RateMode, eps, per_day_gb, count_interval}
use stoker.Engines.Sharding.{Engine, eventgen, rawreplay, metrics, other}

abbrev pub unit : ℕ
unit = 1000000

-- Bounds as configured or built in: a missing key sets nothing.
pub record Layer : Type 0 where
  pub max_gb_day : Option ℕ
  pub max_eps : Option ℕ

pub data Key : Type 0 where
  gb_day_key eps_key : Key

pub record EngineEntry : Type 0 where
  pub engine : Engine
  pub key : Key
  pub value : ℕ

pub record Settings : Type 0 where
  pub globals : Layer
  pub per_engine : List EngineEntry

-- Effective bounds: none is disabled.
pub record Bounds : Type 0 where
  pub gb_day : Option ℕ
  pub eps : Option ℕ

-- CEILINGS and PYTHON_EVENTGEN_CEILINGS
pub builtin : Engine → Bool → Option Bounds
builtin eventgen false = some (record { gb_day = some (250 * unit); eps = some (10000 * unit) })
builtin eventgen true = some (record { gb_day = some (25 * unit); eps = some (5000 * unit) })
builtin rawreplay python = some (record { gb_day = some (25 * unit); eps = some (5000 * unit) })
builtin metrics python = none
builtin other python = none

-- _normalise_bound
pub normalise_bound : ℕ → Option ℕ
normalise_bound zero = none
normalise_bound (suc n) = some (suc n)

-- A value that a layer sets replaces the bound.
pub override : Option ℕ → Option ℕ → Option ℕ
unfolding normalise_bound
override none bound = bound
override (some v) bound = normalise_bound v

pub same_engine : Engine → Engine → Bool
same_engine eventgen eventgen = true
same_engine rawreplay rawreplay = true
same_engine metrics metrics = true
same_engine other other = true
same_engine _ _ = false

pub same_key : Key → Key → Bool
same_key gb_day_key gb_day_key = true
same_key eps_key eps_key = true
same_key gb_day_key eps_key = false
same_key eps_key gb_day_key = false

-- The value that an entry sets for this engine and key.
pub entry_value : Engine → Key → EngineEntry → Option ℕ
unfolding same_engine same_key
entry_value engine key e =
    if same_engine e.engine engine && same_key e.key key then some e.value else none

pub override_all : Engine → Key → List EngineEntry → Option ℕ → Option ℕ
unfolding entry_value override
override_all engine key [] bound = bound
override_all engine key (e ∷ es) bound =
    override_all engine key es (override (entry_value engine key e) bound)

abbrev pub layer_value : Key → Layer → Option ℕ
layer_value gb_day_key l = l.max_gb_day
layer_value eps_key l = l.max_eps

abbrev pub bound_of : Key → Bounds → Option ℕ
bound_of gb_day_key b = b.gb_day
bound_of eps_key b = b.eps

pub with_settings : Engine → Key → Option Settings → Option ℕ → Option ℕ
unfolding override_all override
with_settings engine key none bound = bound
with_settings engine key (some s) bound =
    override_all engine key s.per_engine (override (layer_value key s.globals) bound)

pub with_fleet : Key → Option Layer → Option ℕ → Option ℕ
unfolding override
with_fleet key none bound = bound
with_fleet key (some l) bound = override (layer_value key l) bound

pub resolve_key : Engine → Option Settings → Option Layer → Bounds → Key → Option ℕ
unfolding with_settings with_fleet
resolve_key engine settings fleet table key =
    with_fleet key fleet (with_settings engine key settings (bound_of key table))

pub resolve_table : Engine → Option Settings → Option Layer → Option Bounds → Option Bounds
unfolding resolve_key
resolve_table engine settings fleet none = none
resolve_table engine settings fleet (some table) = some (record {
  gb_day = resolve_key engine settings fleet table gb_day_key;
  eps = resolve_key engine settings fleet table eps_key;
})

-- python: the spec's eventgen_impl is "python".
unfoldable pub resolve_ceilings : Engine → Bool → Option Settings → Option Layer → Option Bounds
unfolding resolve_table builtin
resolve_ceilings engine python settings fleet =
    resolve_table engine settings fleet (builtin engine python)

-- num / den
pub record Amount : Type 0 where
  pub num : ℕ
  pub den : ℕ

abbrev pub whole : ℕ → Amount
whole n = record { num = n; den = 1 }

unfoldable pub eps_to_gb_day : ℕ → Option Amount → Option Amount
eps_to_gb_day rate none = none
eps_to_gb_day rate (some bytes) =
    if bytes.num == 0
    then none
    else some (record { num = rate * bytes.num * 86400; den = bytes.den * 1000000000 })

pub gb_day_to_eps : ℕ → Option Amount → Option Amount
gb_day_to_eps gb none = none
gb_day_to_eps gb (some bytes) =
    if bytes.num == 0
    then none
    else some (record { num = gb * 1000000000 * bytes.den; den = bytes.num * 86400 })

pub data LimitingFactor : Type 0 where
  eps_limit gb_day_limit : LimitingFactor

pub record CeilingCheck : Type 0 where
  pub ok : Bool
  pub suggested_workers : Option ℕ
  pub limiting_factor : Option LimitingFactor

pub fits : CeilingCheck
fits = record { ok = true; suggested_workers = none; limiting_factor = none }

-- value > ceiling
unfoldable pub over : Option Amount → Option ℕ → Bool
over none bound = false
over (some a) none = false
over (some a) (some ceiling) = ltb (ceiling * a.den) a.num

-- math.ceil(value / ceiling)
pub ceil_div : Amount → ℕ → ℕ
ceil_div a ceiling = (a.num + (ceiling * a.den - 1)) / (ceiling * a.den)

pub exceeded : LimitingFactor → Option Amount → Option ℕ → CeilingCheck
unfolding ceil_div fits
exceeded factor (some a) (some ceiling) = record {
  ok = false;
  suggested_workers = some (max 2 (ceil_div a ceiling));
  limiting_factor = some factor;
}
exceeded factor none ceiling = fits
exceeded factor (some a) none = fits

-- The two bounds in the order in which they are tried.
pub first_over :
    LimitingFactor
    → Option Amount
    → Option ℕ
    → LimitingFactor
    → Option Amount
    → Option ℕ
    → CeilingCheck
unfolding over exceeded fits
first_over f a c g b d =
    if over a c then exceeded f a c else if over b d then exceeded g b d else fits

pub check_mode : RateMode → ℕ → Option Amount → Bounds → CeilingCheck
unfolding first_over eps_to_gb_day gb_day_to_eps fits
check_mode count_interval value bytes bounds = fits
check_mode eps zero bytes bounds = fits
check_mode per_day_gb zero bytes bounds = fits
check_mode eps (suc n) bytes bounds =
    first_over eps_limit (some (whole (suc n))) bounds.eps gb_day_limit
      (eps_to_gb_day (suc n) bytes) bounds.gb_day
check_mode per_day_gb (suc n) bytes bounds =
    first_over gb_day_limit (some (whole (suc n))) bounds.gb_day eps_limit
      (gb_day_to_eps (suc n) bytes) bounds.eps

-- ceilings is what resolve_ceilings gave; a value that is absent is never over.
unfoldable pub check_slice : RateMode → Option ℕ → Option Amount → Option Bounds → CeilingCheck
unfolding check_mode fits
check_slice mode value bytes none = fits
check_slice mode none bytes (some bounds) = fits
check_slice mode (some v) bytes (some bounds) = check_mode mode v bytes bounds
