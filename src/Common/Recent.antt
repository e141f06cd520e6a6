-- ===== src/Common/Recent.antt =====
-- The lists behind caches, container/list with a map from the keys to the elements: the entry of a key,
-- removal of an entry, of the back and of all entries that fail a test.
use mathlib.Core.Option.{some_inj}
use pro_labs.Common.{
  suc, ◌≤◌, ◌≡◌, refl, sym, ap, ◌∙◌, arith, Bool, true, false, Option, none, some, List, [], ◌∷◌,
  length, Bool-cases, if-cases, inl, inr, if◌then◌else◌, Text, same_text, same_text_iff,
}

module _ {V : Type 0} where
  unfoldable pub entry_of : Text → List (Text × V) → Option V
  entry_of p [] = none
  entry_of p ((q, v) ∷ order) =
      let rest = entry_of p order in if same_text q p then some v else rest

  unfoldable pub remove_entry : Text → List (Text × V) → List (Text × V)
  remove_entry p [] = []
  remove_entry p ((q, v) ∷ order) =
      let rest = remove_entry p order in if same_text q p then order else (q, v) ∷ rest

  -- `order.Remove(order.Back())`
  unfoldable pub drop_back : List (Text × V) → List (Text × V)
  drop_back [] = []
  drop_back (e ∷ []) = []
  drop_back (e ∷ f ∷ order) = e ∷ drop_back (f ∷ order)

  unfoldable pub keep_if : (V → Bool) → List (Text × V) → List (Text × V)
  keep_if test [] = []
  keep_if test ((q, v) ∷ order) =
      let rest = keep_if test order in if test v then (q, v) ∷ rest else rest

  -- The first list is the second without some of its entries.
  pub data Sub : List (Text × V) → List (Text × V) → Type 0 where
    nothing : Sub [] []
    both : (e : Text × V) {xs ys : List (Text × V)} → Sub xs ys → Sub (e ∷ xs) (e ∷ ys)
    less : (e : Text × V) {xs ys : List (Text × V)} → Sub xs ys → Sub xs (e ∷ ys)

  -- No key has a second entry.
  abbrev pub Distinct : List (Text × V) → Type 0
  Distinct [] = Unit
  Distinct (e ∷ order) = (entry_of e.0 order ≡ none) × Distinct order

  pub Sub-refl : (xs : List (Text × V)) → Sub xs xs
  Sub-refl [] = nothing
  Sub-refl (e ∷ xs) = both e (Sub-refl xs)

  pub Sub-trans :
      {ys zs : List (Text × V)} → Sub ys zs → {xs : List (Text × V)} → Sub xs ys → Sub xs zs
  Sub-trans nothing s = s
  Sub-trans (both f t) (both e s) = both f (Sub-trans t s)
  Sub-trans (both f t) (less e s) = less f (Sub-trans t s)
  Sub-trans (less f t) s = less f (Sub-trans t s)

  pub Sub-remove_entry : (p : Text) (xs : List (Text × V)) → Sub (remove_entry p xs) xs
  unfolding remove_entry
  Sub-remove_entry p [] = nothing
  Sub-remove_entry p ((q, v) ∷ xs) =
      if-cases (λ (ys : List (Text × V)). Sub ys ((q, v) ∷ xs)) (same_text q p)
        (λ e. less (q, v) (Sub-refl xs)) (λ e. both (q, v) (Sub-remove_entry p xs))

  pub Sub-drop_back : (xs : List (Text × V)) → Sub (drop_back xs) xs
  unfolding drop_back
  Sub-drop_back [] = nothing
  Sub-drop_back (e ∷ []) = less e nothing
  Sub-drop_back (e ∷ f ∷ xs) = both e (Sub-drop_back (f ∷ xs))

  pub Sub-keep_if : (test : V → Bool) (xs : List (Text × V)) → Sub (keep_if test xs) xs
  unfolding keep_if
  Sub-keep_if test [] = nothing
  Sub-keep_if test ((q, v) ∷ xs) =
      if-cases (λ (ys : List (Text × V)). Sub ys ((q, v) ∷ xs)) (test v)
        (λ e. both (q, v) (Sub-keep_if test xs)) (λ e. less (q, v) (Sub-keep_if test xs))

  pub Sub-length : {xs ys : List (Text × V)} → Sub xs ys → length xs ≤ length ys
  Sub-length nothing = omega arith
  Sub-length (both e s) = omega (arith, Sub-length s)
  Sub-length (less e s) = omega (arith, Sub-length s)

  pub entry_of_here :
      (p q : Text) (v : V) (order : List (Text × V))
      → same_text q p ≡ true
      → entry_of p ((q, v) ∷ order) ≡ some v
  unfolding entry_of
  entry_of_here p q v order h = ap (λ (b : Bool). if b then some v else entry_of p order) h

  pub entry_of_there :
      (p q : Text) (v : V) (order : List (Text × V))
      → same_text q p ≡ false
      → entry_of p ((q, v) ∷ order) ≡ entry_of p order
  unfolding entry_of
  entry_of_there p q v order h = ap (λ (b : Bool). if b then some v else entry_of p order) h

  entry_of_none :
      (p q : Text) (v : V) (order : List (Text × V))
      → entry_of p ((q, v) ∷ order) ≡ none
      → (same_text q p ≡ false) × (entry_of p order ≡ none)
  entry_of_none p q v order h = elim (Bool-cases (same_text q p)) [
    | inl here ↦ absurd (cc (sym (entry_of_here p q v order here) ∙ h))
    | inr other ↦ (other, sym (entry_of_there p q v order other) ∙ h)
  ]

  -- An entry that is no other key's is that of the key.
  absent :
      (p q : Text) (order : List (Text × V))
      → same_text q p ≡ true
      → entry_of q order ≡ none
      → entry_of p order ≡ none
  absent p q order h k = ap (λ (x : Text). entry_of x order) (sym ((same_text_iff q p).0 h)) ∙ k

  pub Sub-none :
      {xs ys : List (Text × V)} (p : Text) → Sub xs ys → entry_of p ys ≡ none → entry_of p xs ≡ none
  Sub-none p nothing h = h
  Sub-none p (both (q, v) {xs} {ys} s) h =
      let (other, k) = entry_of_none p q v ys h in entry_of_there p q v xs other ∙ Sub-none p s k
  Sub-none p (less (q, v) {xs} {ys} s) h = Sub-none p s (entry_of_none p q v ys h).1

  pub Sub-Distinct : {xs ys : List (Text × V)} → Sub xs ys → Distinct ys → Distinct xs
  Sub-Distinct nothing d = tt
  Sub-Distinct (both e s) d = (Sub-none e.0 s d.0, Sub-Distinct s d.1)
  Sub-Distinct (less e s) d = Sub-Distinct s d.1

  -- What is found in a part is found in the whole.
  pub Sub-entry_of :
      {xs ys : List (Text × V)} (p : Text) (v : V)
      → Sub xs ys
      → Distinct ys
      → entry_of p xs ≡ some v
      → entry_of p ys ≡ some v
  Sub-entry_of p v nothing d h = h
  Sub-entry_of p v (both (q, w) {xs} {ys} s) d h = elim (Bool-cases (same_text q p)) [
    | inl here ↦ entry_of_here p q w ys here ∙ sym (entry_of_here p q w xs here) ∙ h
    | inr other ↦
        entry_of_there p q w ys other
        ∙ Sub-entry_of p v s d.1 (sym (entry_of_there p q w xs other) ∙ h)
  ]
  Sub-entry_of p v (less (q, w) {xs} {ys} s) d h =
      let found = Sub-entry_of p v s d.1 h in
      elim (Bool-cases (same_text q p)) [
        | inl here ↦ absurd (cc (sym (absent p q ys here d.0) ∙ found))
        | inr other ↦ entry_of_there p q w ys other ∙ found
      ]

  pub entry_of-remove_entry :
      (p : Text) (xs : List (Text × V)) → Distinct xs → entry_of p (remove_entry p xs) ≡ none
  unfolding entry_of remove_entry
  entry_of-remove_entry p [] d = refl
  entry_of-remove_entry p ((q, v) ∷ xs) d = elim (Bool-cases (same_text q p)) [
    | inl here ↦ rw here (absent p q xs here d.0)
    | inr other ↦
        rw other (entry_of_there p q v (remove_entry p xs) other ∙ entry_of-remove_entry p xs d.1)
  ]

  pub length-drop_back :
      (e : Text × V) (order : List (Text × V)) → length (drop_back (e ∷ order)) ≡ length order
  unfolding drop_back
  length-drop_back e [] = refl
  length-drop_back e (f ∷ order) = ap suc (length-drop_back f order)

  pub length-remove_entry :
      (p : Text) (v : V) (order : List (Text × V))
      → entry_of p order ≡ some v
      → suc (length (remove_entry p order)) ≡ length order
  unfolding entry_of remove_entry
  length-remove_entry p v [] e = absurd (cc e)
  length-remove_entry p v ((q, w) ∷ order) e = elim (Bool-cases (same_text q p)) [
    | inl here ↦ rw here refl
    | inr other ↦
        let k : entry_of p order ≡ some v =
          sym (ap (λ (b : Bool). if b then some w else entry_of p order) other) ∙ e in
        rw other (ap suc (length-remove_entry p v order k))
  ]

  -- What is kept passes the test.
  pub entry_of-keep_if :
      (test : V → Bool) (p : Text) (v : V) (xs : List (Text × V))
      → entry_of p (keep_if test xs) ≡ some v
      → test v ≡ true
  unfolding entry_of keep_if
  entry_of-keep_if test p v [] h = absurd (cc h)
  entry_of-keep_if test p v ((q, w) ∷ xs) h = elim (Bool-cases (test w)) [
    | inl passed ↦
        let k : entry_of p ((q, w) ∷ keep_if test xs) ≡ some v =
          sym (
            ap (λ (b : Bool). entry_of p (if b then (q, w) ∷ keep_if test xs else keep_if test xs))
              passed)
          ∙ h in
        elim (Bool-cases (same_text q p)) [
          | inl here ↦
              let e : w ≡ v = some_inj.0 (sym (entry_of_here p q w (keep_if test xs) here) ∙ k) in
              ap test (sym e) ∙ passed
          | inr other ↦
              entry_of-keep_if test p v xs (sym (entry_of_there p q w (keep_if test xs) other) ∙ k)
        ]
    | inr failed ↦ entry_of-keep_if test p v xs (
        sym (
          ap (λ (b : Bool). entry_of p (if b then (q, w) ∷ keep_if test xs else keep_if test xs))
            failed)
        ∙ h)
  ]
