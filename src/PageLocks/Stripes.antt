-- ===== src/PageLocks/Stripes.antt =====
-- server/internal/core/storage/page_lock.go: the stripes that LockTable takes.
use pro_labs.Common.{
  ℕ, ◌<◌, ◌≡◌, refl, sym, ap, arith, false, List, [], ◌∷◌, ◌||◌, ◌&&◌, not, map, ltb, ◌==◌,
  if-cases, ==_iff, Bool-cases, inl, inr, All,
}
use pro_labs.Bitmap.Slots.{Ascending, among}
use pro_labs.PageLocks.{PageId, stripe_of, gather, move_left, sort_stripes, stripes_of}

-- Each once.
abbrev Distinct : List ℕ → Type 0
Distinct [] = Unit
Distinct (x ∷ xs) = (among x xs ≡ false) × Distinct xs

among-gather :
    (x : ℕ) (seen : List ℕ) (pids : List PageId)
    → among x (gather seen pids) ≡ (among x (map stripe_of pids) && not (among x seen))
unfolding gather
among-gather x seen [] = refl
among-gather x seen (pid ∷ pids) =
    let s = stripe_of pid in
    let go_on = among-gather x seen pids in
    let more = among-gather x (s ∷ seen) pids in
    elim (Bool-cases (s == x)) [
      | inl here ↦
          let e : among x seen ≡ among s seen =
            ap (λ (y : ℕ). among y seen) (sym ((==_iff s x).0 here)) in
          ground (arith, here, e, go_on, more)
      | inr other ↦ ground (arith, other, go_on, more)
    ]

gather-Distinct : (seen : List ℕ) (pids : List PageId) → Distinct (gather seen pids)
unfolding gather
gather-Distinct seen [] = tt
gather-Distinct seen (pid ∷ pids) =
    let s = stripe_of pid in
    if-cases Distinct (among s seen) (λ e. gather-Distinct seen pids)
      (λ e. (ground (arith, among-gather s (s ∷ seen) pids), gather-Distinct (s ∷ seen) pids))

among-move_left : (x y : ℕ) (ys : List ℕ) → among x (move_left y ys) ≡ ((y == x) || among x ys)
unfolding move_left
among-move_left x y [] = refl
among-move_left x y (z ∷ zs) = ground (arith, among-move_left x y zs)

All-lt : (x y : ℕ) (ys : List ℕ) → x < y → All (λ z. y < z) ys → All (λ z. x < z) ys
All-lt x y [] h k = tt
All-lt x y (z ∷ ys) h k = (omega (arith, k.0), All-lt x y ys h k.1)

All-move_left : (P : ℕ → Type 0) (x : ℕ) (ys : List ℕ) → P x → All P ys → All P (move_left x ys)
unfolding move_left
All-move_left P x [] h k = (h, tt)
All-move_left P x (y ∷ ys) h k =
    if-cases (All P) (ltb x y) (λ e. (h, k)) (λ e. (k.0, All-move_left P x ys h k.1))

move_left-Ascending :
    (x : ℕ) (ys : List ℕ) → among x ys ≡ false → Ascending ys → Ascending (move_left x ys)
unfolding move_left
move_left-Ascending x [] h k = (tt, tt)
move_left-Ascending x (y ∷ ys) h k =
    if-cases Ascending (ltb x y)
      (λ e. let l : x < y = ground (arith, e) in ((l, All-lt x y ys l k.0), k))
      (λ e. (
        All-move_left (λ z. y < z) x ys (ground (arith, e, h)) k.0,
        move_left-Ascending x ys (ground (arith, h)) k.1,
      ))

sort_stripes-Ascending :
    (done xs : List ℕ)
    → Ascending done
    → Distinct xs
    → All (λ x. among x done ≡ false) xs
    → Ascending (sort_stripes done xs)
unfolding sort_stripes
sort_stripes-Ascending done [] a d k = a
sort_stripes-Ascending done (x ∷ xs) a d k =
    sort_stripes-Ascending (move_left x done) xs (move_left-Ascending x done k.0 a) d.1
      (All-not_among x done xs d.0 k.1)
  where
    All-not_among :
        (x : ℕ) (done xs : List ℕ)
        → among x xs ≡ false
        → All (λ y. among y done ≡ false) xs
        → All (λ y. among y (move_left x done) ≡ false) xs
    All-not_among x done [] h k = tt
    All-not_among x done (y ∷ ys) h k = (
      ground (arith, among-move_left y x done, h, k.0),
      All-not_among x done ys (ground (arith, h)) k.1,
    )

among-sort_stripes :
    (x : ℕ) (done xs : List ℕ) → among x (sort_stripes done xs) ≡ (among x done || among x xs)
unfolding sort_stripes
among-sort_stripes x done [] = ground arith
among-sort_stripes x done (y ∷ ys) =
    ground (arith, among-sort_stripes x (move_left y done) ys, among-move_left x y done)

none_among : (xs : List ℕ) → All (λ x. among x [] ≡ false) xs
none_among [] = tt
none_among (x ∷ xs) = (refl, none_among xs)

-- LockTable and UnlockTable take the stripes of the pages and no others, each once, in ascending order.
pub stripes_of_lem :
    (pids : List PageId)
    → Ascending (stripes_of pids)
      × ((x : ℕ) → among x (stripes_of pids) ≡ among x (map stripe_of pids))
unfolding stripes_of
stripes_of_lem pids = (
  sort_stripes-Ascending [] (gather [] pids) tt (gather-Distinct [] pids)
      (none_among (gather [] pids)),
  λ x. ground (arith, among-sort_stripes x [] (gather [] pids), among-gather x [] pids),
)
