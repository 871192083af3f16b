-- ===== src/Engines/Ceilings/Layers.antt =====
-- Which layer a resolved ceiling comes from.
use mathlib.Core.Option
use mathlib.Core.Path.{ap₂}
use mathlib.Core.List.{reverse, reverse-cons}
use stoker.Prelude.{ℕ, ◌≡◌, refl, sym, ap, ◌∙◌, Bool, Option, none, some, List, [], ◌∷◌, ◌++◌, map}
use stoker.Engines.Sharding.{Engine}
use stoker.Engines.Ceilings.{
  Layer, Key, EngineEntry, Settings, Bounds, builtin, normalise_bound, override, entry_value,
  override_all, layer_value, bound_of, with_settings, with_fleet, resolve_key, resolve_table,
  resolve_ceilings,
}

-- The first layer that sets a value decides; its value 0 disables the bound.
abbrev pub first_set : List (Option ℕ) → Option ℕ → Option ℕ
first_set [] bound = bound
first_set (none ∷ layers) bound = first_set layers bound
first_set (some v ∷ layers) bound = normalise_bound v

first_set-append :
    (xs ys : List (Option ℕ)) (bound : Option ℕ)
    → first_set (xs ++ ys) bound ≡ first_set xs (first_set ys bound)
first_set-append [] ys bound = refl
first_set-append (none ∷ xs) ys bound = first_set-append xs ys bound
first_set-append (some v ∷ xs) ys bound = refl

override-first_set : (o bound : Option ℕ) → override o bound ≡ first_set (o ∷ []) bound
unfolding override
override-first_set none bound = refl
override-first_set (some v) bound = refl

entries : Engine → Key → List EngineEntry → List (Option ℕ)
entries engine key es = reverse (map (entry_value engine key) es)

override_all-first_set :
    (engine : Engine) (key : Key) (es : List EngineEntry) (bound : Option ℕ)
    → override_all engine key es bound ≡ first_set (entries engine key es) bound
unfolding override_all entries
override_all-first_set engine key [] bound = refl
override_all-first_set engine key (e ∷ es) bound =
    override_all-first_set engine key es (override (entry_value engine key e) bound)
    ∙ ap (first_set (entries engine key es)) (override-first_set (entry_value engine key e) bound)
    ∙ sym (first_set-append (entries engine key es) (entry_value engine key e ∷ []) bound)
    ∙ ap (λ ls. first_set ls bound)
        (sym (reverse-cons (entry_value engine key e) (map (entry_value engine key) es)))

settings_layers : Engine → Key → Option Settings → List (Option ℕ)
settings_layers engine key none = []
settings_layers engine key (some s) =
    entries engine key s.per_engine ++ layer_value key s.globals ∷ []

fleet_layers : Key → Option Layer → List (Option ℕ)
fleet_layers key none = []
fleet_layers key (some l) = layer_value key l ∷ []

-- The layers in the order of precedence: the fleet's override, the per-engine entries from the last
-- to the first, the global value.
layers : Engine → Key → Option Settings → Option Layer → List (Option ℕ)
layers engine key settings fleet = fleet_layers key fleet ++ settings_layers engine key settings

settings-first_set :
    (engine : Engine) (key : Key) (settings : Option Settings) (bound : Option ℕ)
    → with_settings engine key settings bound
      ≡ first_set (settings_layers engine key settings) bound
unfolding with_settings settings_layers
settings-first_set engine key none bound = refl
settings-first_set engine key (some s) bound =
    override_all-first_set engine key s.per_engine (override (layer_value key s.globals) bound)
    ∙ ap (first_set (entries engine key s.per_engine))
        (override-first_set (layer_value key s.globals) bound)
    ∙ sym
        (first_set-append (entries engine key s.per_engine) (layer_value key s.globals ∷ []) bound)

fleet-first_set :
    (key : Key) (fleet : Option Layer) (bound : Option ℕ)
    → with_fleet key fleet bound ≡ first_set (fleet_layers key fleet) bound
unfolding with_fleet fleet_layers
fleet-first_set key none bound = refl
fleet-first_set key (some l) bound = override-first_set (layer_value key l) bound

key-first_set :
    (engine : Engine) (settings : Option Settings) (fleet : Option Layer) (table : Bounds)
    (key : Key)
    → resolve_key engine settings fleet table key
      ≡ first_set (layers engine key settings fleet) (bound_of key table)
unfolding resolve_key layers
key-first_set engine settings fleet table key =
    fleet-first_set key fleet (with_settings engine key settings (bound_of key table))
    ∙ ap (first_set (fleet_layers key fleet))
        (settings-first_set engine key settings (bound_of key table))
    ∙ sym (
        first_set-append (fleet_layers key fleet) (settings_layers engine key settings)
          (bound_of key table))

pub resolved : (engine : Engine) → Option Settings → Option Layer → Bounds → Key → Option ℕ
resolved engine settings fleet table key =
    first_set (layers engine key settings fleet) (bound_of key table)

-- The most specific layer that sets a bound decides it (the fleet before the last matching
-- per-engine entry, before the global value, before the built-in table), where 0 disables it, and
-- an engine with no built-in table has no ceilings whatever is configured.
pub resolve_ceilings-precedence :
    (engine : Engine) (python : Bool) (settings : Option Settings) (fleet : Option Layer)
    → resolve_ceilings engine python settings fleet
      ≡ Option.map
          (λ table. record {
            gb_day = resolved engine settings fleet table Key.gb_day_key;
            eps = resolved engine settings fleet table Key.eps_key;
          })
          (builtin engine python)
unfolding resolve_ceilings
resolve_ceilings-precedence engine python settings fleet = by_table (builtin engine python)
  where
    by_table :
        (o : Option Bounds)
        → resolve_table engine settings fleet o
          ≡ Option.map
              (λ table. record {
                gb_day = resolved engine settings fleet table Key.gb_day_key;
                eps = resolved engine settings fleet table Key.eps_key;
              })
              o
    by_table none = refl
    by_table (some table) =
        unfold resolved in
        ap₂ (λ g e. some (record { gb_day = g; eps = e }))
          (key-first_set engine settings fleet table Key.gb_day_key)
          (key-first_set engine settings fleet table Key.eps_key)
