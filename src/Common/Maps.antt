-- ===== src/Common/Maps.antt =====
-- Go maps with string keys, as association lists without a second entry for a key.
use Prim.Native.String.{String}
use text.Mathlib.Text.{◌==◌ as str_eq}
use mathlib.Core.Bool.{false}
use mathlib.Core.Option.{Option, none, some}
use mathlib.Core.List.{List, [], ◌∷◌}
use mathlib.Core.Path.{◌≡◌, ◌∙◌, ap, refl}
use mathlib.Core.Logic.{◌≢◌, inl, inr}
use text.Mathlib.TextEquality.{eq_iff}
use text.Mathlib.TextPositions.{eq_refl}
use pro_labs.Common.Tests.{Bool-cases, if◌then◌else◌}

other_key : (key other : String) → key ≢ other → str_eq key other ≡ false
other_key key other h = elim (Bool-cases (str_eq key other)) [
  | inl same ↦ absurd (h ((eq_iff key other).0 same))
  | inr differ ↦ differ
]

module _ {ℓ} {V : Type ℓ} where
  abbrev pub find : String → List (String × V) → Option V
  find key [] = none
  find key ((k, v) ∷ m) = if str_eq k key then some v else find key m

  -- `m[key] = v`
  abbrev pub put : String → V → List (String × V) → List (String × V)
  put key v [] = (key, v) ∷ []
  put key v ((k, w) ∷ m) =
      let rest = put key v m in if str_eq k key then (k, v) ∷ m else (k, w) ∷ rest

  -- `delete(m, key)`
  abbrev pub remove : String → List (String × V) → List (String × V)
  remove key [] = []
  remove key ((k, v) ∷ m) = let rest = remove key m in if str_eq k key then rest else (k, v) ∷ rest

  pub find-put : (key : String) (v : V) (m : List (String × V)) → find key (put key v m) ≡ some v
  find-put key v [] = rw (eq_refl key) refl
  find-put key v ((k, w) ∷ m) = elim (Bool-cases (str_eq k key)) [
    | inl same ↦ rw (same) (rw same refl)
    | inr other ↦ rw other (rw other (find-put key v m))
  ]

  pub find-put_ne :
      (key other : String) (v : V) (m : List (String × V))
      → key ≢ other
      → find other (put key v m) ≡ find other m
  find-put_ne key other v [] h = rw (other_key key other h) refl
  find-put_ne key other v ((k, w) ∷ m) h = elim (Bool-cases (str_eq k key)) [
    | inl same ↦
        let e : k ≡ key = (eq_iff k key).0 same in
        let f : str_eq k other ≡ false = ap (λ x. str_eq x other) e ∙ other_key key other h in
        rw (same) (rw (f) refl)
    | inr differ ↦
        rw differ (ap (λ x. if str_eq k other then some w else x) (find-put_ne key other v m h))
  ]
