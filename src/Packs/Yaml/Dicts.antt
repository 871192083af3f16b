-- ===== src/Packs/Yaml/Dicts.antt =====
-- The association lists that stand for the dicts of _parse_pack_yaml.
use stoker.Prelude.{
  true, ◌≡◌, refl, some, List, [], ◌∷◌, if◌then◌else◌, arith, Bool-cases, inl, inr,
}
use stoker.Packs.Text.{Text, equal}
use stoker.Packs.Yaml.{insert, lookup}

pub equal_refl : (s : Text) → equal s s ≡ true
unfolding equal
equal_refl [] = refl
equal_refl (c ∷ cs) = ground (arith, equal_refl cs)

pub equal→eq : (s t : Text) → equal s t ≡ true → s ≡ t
unfolding equal
equal→eq [] [] h = refl
equal→eq [] (y ∷ t) h = cc
equal→eq (x ∷ s) [] h = cc
equal→eq (x ∷ s) (y ∷ t) h = ground (arith, equal→eq s t)

module _ {ℓ} {A : Type ℓ} where
  pub lookup-insert :
      (k j : Text) (v : A) (m : List (Text × A))
      → lookup j (insert k v m) ≡ (if equal k j then some v else lookup j m)
  unfolding lookup insert
  lookup-insert k j v [] = refl
  lookup-insert k j v ((i, w) ∷ m) = elim (Bool-cases (equal i k)) [
    | inl e ↦ ground (arith, equal→eq i k e)
    | inr e ↦ ground (arith, equal→eq k j, equal_refl k, equal→eq i j, lookup-insert k j v m)
  ]
