-- ===== src/Base/Dict.antt =====
-- A JavaScript `Map` with string keys: entries in insertion order. `insert` on a present key
-- keeps the entry's place, `remove` drops the entry.
use Prim.Native.String.{String}
use mathlib.Core.Path.{◌≡◌, refl}
use mathlib.Core.Logic.{inl, inr, ◌≢◌}
use mathlib.Core.Bool.{false}
use mathlib.Core.Option.{Option, none, some}
use mathlib.Core.List.{List, [], ◌∷◌}
use native.Mathlib.Omega.{arith}
use text.Mathlib.Text.{◌==◌}
use text.Mathlib.TextEquality.{eq_iff}
use text.Mathlib.TextPositions.{eq_refl}
use bullmq_durable.Base.Tests.{if◌then◌else◌, Bool-cases}

abbrev pub Dict {ℓ} : Type ℓ → Type ℓ
Dict V = List (String × V)

module _ {ℓ} {V : Type ℓ} where
  -- `map.get(key)`.
  unfoldable pub lookup : String → Dict V → Option V
  lookup key [] = none
  lookup key ((name, v) ∷ dict) = if name == key then some v else lookup key dict

  -- `map.set(key, v)`.
  unfoldable pub insert : String → V → Dict V → Dict V
  insert key v [] = (key, v) ∷ []
  insert key v ((name, old) ∷ dict) =
      if name == key then (name, v) ∷ dict else (name, old) ∷ insert key v dict

  -- `map.delete(key)`.
  unfoldable pub remove : String → Dict V → Dict V
  remove key [] = []
  remove key ((name, old) ∷ dict) =
      if name == key then remove key dict else (name, old) ∷ remove key dict

  pub lookup-insert :
      (key name : String) (v : V) (dict : Dict V)
      → lookup name (insert key v dict) ≡ (if key == name then some v else lookup name dict)
  unfolding lookup insert
  lookup-insert key name v [] = refl
  lookup-insert key name v ((head, old) ∷ dict) =
      ground
        (arith, eq_iff key name, eq_iff head key, eq_iff head name, lookup-insert key name v dict)

  pub lookup-insert_self :
      (key : String) (v : V) (dict : Dict V) → lookup key (insert key v dict) ≡ some v
  lookup-insert_self key v dict = simp (lookup-insert, eq_refl)

  pub lookup-remove :
      (key name : String) (dict : Dict V)
      → lookup name (remove key dict) ≡ (if key == name then none else lookup name dict)
  unfolding lookup remove
  lookup-remove key name [] = ground arith
  lookup-remove key name ((head, old) ∷ dict) =
      ground
        (arith, eq_iff key name, eq_iff head key, eq_iff head name, lookup-remove key name dict)

  -- A second write of the same key replaces the first.
  pub insert-insert :
      (key : String) (v old : V) (dict : Dict V)
      → insert key old (insert key v dict) ≡ insert key old dict
  unfolding insert
  insert-insert key v old [] = simp eq_refl
  insert-insert key v old ((head, x) ∷ dict) =
      ground (arith, eq_iff head key, insert-insert key v old dict)

pub eq_ne : (s t : String) → s ≢ t → (s == t) ≡ false
eq_ne s t h = elim (Bool-cases (s == t)) [ inl e ↦ absurd (h ((eq_iff s t).0 e)) | inr e ↦ e ]

pub ruleset dict_laws = (lookup-insert, lookup-remove, eq_refl, eq_ne)
