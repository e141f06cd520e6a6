-- ===== src/Bitmap/Slots.antt =====
-- server/internal/core/storage/bitmap.go: the slots of one page, in ascending order.
use Prim.Native.Nat.{compare, Ordering}
use pro_labs.Common.{
  ℕ, ◌<◌, ◌≤◌, ◌≡◌, refl, Bool, false, List, [], ◌∷◌, ◌&&◌, ◌||◌, leb, ◌==◌, if◌then◌else◌,
  Bool-cases, inl, inr, arith, All,
}
use pro_labs.Bitmap.{search, insert_slot, intersect, unite}

-- Each slot is below those behind it.
abbrev pub Ascending : List ℕ → Type 0
Ascending [] = Unit
Ascending (x ∷ xs) = All (λ y. x < y) xs × Ascending xs

abbrev pub among : ℕ → List ℕ → Bool
among x [] = false
among x (y ∷ ys) = (y == x) || among x ys

All-lt : (x y : ℕ) (ys : List ℕ) → x ≤ y → All (λ z. y < z) ys → All (λ z. x < z) ys
All-lt x y [] h k = tt
All-lt x y (z ∷ ys) h k = (omega (arith, k.0), All-lt x y ys h k.1)

-- Nothing below the first slot is among them.
below : (x : ℕ) (ys : List ℕ) → All (λ z. x < z) ys → among x ys ≡ false
below x [] h = refl
below x (y ∷ ys) h = ground (arith, h.0, below x ys h.1)

below_le : (x y : ℕ) (ys : List ℕ) → All (λ z. y < z) ys → x ≤ y → among x ys ≡ false
below_le x y ys h k = below x ys (All-lt x y ys k h)

intersect-All : (P : ℕ → Type 0) (xs ys : List ℕ) → All P xs → All P (intersect xs ys)
unfolding intersect
intersect-All P [] ys h = tt
intersect-All P (x ∷ xs) [] h = tt
intersect-All P (x ∷ xs) (y ∷ ys) h =
    elim (compare x y)
      as (λ o. All P (elim o [
        | Ordering.eq ↦ x ∷ intersect xs ys
        | Ordering.lt ↦ intersect xs (y ∷ ys)
        | Ordering.gt ↦ intersect (x ∷ xs) ys
      ])) [
        | Ordering.eq ↦ (h.0, intersect-All P xs ys h.1)
        | Ordering.lt ↦ intersect-All P xs (y ∷ ys) h.1
        | Ordering.gt ↦ intersect-All P (x ∷ xs) ys h
      ]

pub intersect-Ascending : (xs ys : List ℕ) → Ascending xs → Ascending (intersect xs ys)
unfolding intersect
intersect-Ascending [] ys h = tt
intersect-Ascending (x ∷ xs) [] h = tt
intersect-Ascending (x ∷ xs) (y ∷ ys) h = ground (
  arith,
  intersect-Ascending xs ys h.1,
  intersect-Ascending xs (y ∷ ys) h.1,
  intersect-Ascending (x ∷ xs) ys h,
  intersect-All (λ z. x < z) xs ys h.0,
)

pub among-intersect :
    (x : ℕ) (ys zs : List ℕ)
    → Ascending ys
    → Ascending zs
    → among x (intersect ys zs) ≡ (among x ys && among x zs)
unfolding intersect
among-intersect x [] zs h k = refl
among-intersect x (y ∷ ys) [] h k = ground arith
among-intersect x (y ∷ ys) (z ∷ zs) h k = ground (
  arith,
  among-intersect x ys zs h.1 k.1,
  among-intersect x ys (z ∷ zs) h.1 k,
  among-intersect x (y ∷ ys) zs h k.1,
  below_le x y ys h.0,
  below_le x z zs k.0,
)

unite-All : (P : ℕ → Type 0) (xs ys : List ℕ) → All P xs → All P ys → All P (unite xs ys)
unfolding unite
unite-All P [] ys h k = k
unite-All P (x ∷ xs) [] h k = h
unite-All P (x ∷ xs) (y ∷ ys) h k =
    elim (compare x y)
      as (λ o. All P (elim o [
        | Ordering.eq ↦ x ∷ unite xs ys
        | Ordering.lt ↦ x ∷ unite xs (y ∷ ys)
        | Ordering.gt ↦ y ∷ unite (x ∷ xs) ys
      ])) [
        | Ordering.eq ↦ (h.0, unite-All P xs ys h.1 k.1)
        | Ordering.lt ↦ (h.0, unite-All P xs (y ∷ ys) h.1 k)
        | Ordering.gt ↦ (k.0, unite-All P (x ∷ xs) ys h k.1)
      ]

pub unite-Ascending : (xs ys : List ℕ) → Ascending xs → Ascending ys → Ascending (unite xs ys)
unfolding unite
unite-Ascending [] ys h k = k
unite-Ascending (x ∷ xs) [] h k = h
unite-Ascending (x ∷ xs) (y ∷ ys) h k = ground (
  arith,
  unite-Ascending xs ys h.1 k.1,
  unite-Ascending xs (y ∷ ys) h.1 k,
  unite-Ascending (x ∷ xs) ys h k.1,
  unite-All (λ z. x < z) xs ys h.0,
  unite-All (λ z. x < z) xs (y ∷ ys) h.0,
  unite-All (λ z. y < z) (x ∷ xs) ys,
  All-lt x y ys,
  All-lt y x xs,
  h.0,
  k.0,
)

pub among-unite : (x : ℕ) (ys zs : List ℕ) → among x (unite ys zs) ≡ (among x ys || among x zs)
unfolding unite
among-unite x [] zs = refl
among-unite x (y ∷ ys) [] = ground arith
among-unite x (y ∷ ys) (z ∷ zs) =
    ground (arith, among-unite x ys zs, among-unite x ys (z ∷ zs), among-unite x (y ∷ ys) zs)

insert_slot-nil : (slot : ℕ) → insert_slot [] slot ≡ slot ∷ []
unfolding insert_slot search
insert_slot-nil slot = refl

-- Insertion, as a recursion on the slots.
insert_slot-cons :
    (s : ℕ) (slots : List ℕ) (slot : ℕ)
    → insert_slot (s ∷ slots) slot ≡ (
        if leb slot s
        then (if s == slot then s ∷ slots else slot ∷ s ∷ slots)
        else s ∷ insert_slot slots slot)
unfolding insert_slot search
insert_slot-cons s slots slot = elim (Bool-cases (leb slot s)) [
  | inl here ↦ rw here (ground arith)
  | inr later ↦ rw later (ground arith)
]

insert_slot-All :
    (P : ℕ → Type 0) (slots : List ℕ) (slot : ℕ)
    → P slot
    → All P slots
    → All P (insert_slot slots slot)
insert_slot-All P [] slot h k = rw (insert_slot-nil slot) (h, tt)
insert_slot-All P (s ∷ slots) slot h k =
    rw (insert_slot-cons s slots slot) (ground (arith, insert_slot-All P slots slot h k.1, h, k))

pub insert_slot-Ascending :
    (slots : List ℕ) (slot : ℕ) → Ascending slots → Ascending (insert_slot slots slot)
insert_slot-Ascending [] slot h = rw (insert_slot-nil slot) (tt, tt)
insert_slot-Ascending (s ∷ slots) slot h = rw (insert_slot-cons s slots slot) (
    ground (
      arith,
      insert_slot-Ascending slots slot h.1,
      insert_slot-All (λ z. s < z) slots slot,
      All-lt slot s slots,
      h.0,
    ))

pub among-insert_slot :
    (x : ℕ) (slots : List ℕ) (slot : ℕ)
    → among x (insert_slot slots slot) ≡ ((slot == x) || among x slots)
among-insert_slot x [] slot = rw (insert_slot-nil slot) refl
among-insert_slot x (s ∷ slots) slot =
    rw (insert_slot-cons s slots slot) (ground (arith, among-insert_slot x slots slot))
