-- ===== src/Common/Words.antt =====
-- Fixed-width unsigned integers as natural numbers: little-endian bytes of 2, 4 and 8 places, as
-- the Go package encoding/binary reads and writes them.
use pro_labs.Common.{
  ℕ, zero, suc, ◌+◌, ◌*◌, ◌/◌, ◌%◌, ◌<◌, ◌≡◌, refl, sym, ap, ◌∙◌, length, drop, drop-append,
  length-append, All, List, [], ◌∷◌, ◌++◌, arith,
}

-- The `w` low bytes of `n`, the lowest first.
unfoldable pub le_bytes : ℕ → ℕ → List ℕ
le_bytes zero n = []
le_bytes (suc w) n = n % 256 ∷ le_bytes w (n / 256)

-- The number whose `w` low bytes start the list; what is missing reads as 0.
unfoldable pub le_value : ℕ → List ℕ → ℕ
le_value zero bs = 0
le_value (suc w) [] = 0
le_value (suc w) (b ∷ bs) = b + 256 * le_value w bs

abbrev pub bound : ℕ → ℕ
bound zero = 1
bound (suc w) = 256 * bound w

pub le_value-le_bytes :
    (w n : ℕ) (rest : List ℕ) → n < bound w → le_value w (le_bytes w n ++ rest) ≡ n
unfolding le_value le_bytes
le_value-le_bytes zero n rest h = omega arith
le_value-le_bytes (suc w) n rest h = omega (arith, le_value-le_bytes w (n / 256) rest (omega arith))

pub length-le_bytes : (w n : ℕ) → length (le_bytes w n) ≡ w
unfolding le_bytes
length-le_bytes zero n = refl
length-le_bytes (suc w) n = ap suc (length-le_bytes w (n / 256))

pub le_value_exact : (w n : ℕ) → n < bound w → le_value w (le_bytes w n) ≡ n
unfolding le_value le_bytes
le_value_exact zero n h = omega arith
le_value_exact (suc w) n h = omega (arith, le_value_exact w (n / 256) (omega arith))

pub le_bytes-lt : (w n : ℕ) → All (λ b. b < 256) (le_bytes w n)
unfolding le_bytes
le_bytes-lt zero n = tt
le_bytes-lt (suc w) n = (omega arith, le_bytes-lt w (n / 256))

pub drop-le_bytes : (w n : ℕ) (rest : List ℕ) → drop w (le_bytes w n ++ rest) ≡ rest
drop-le_bytes w n rest =
    ap (λ (k : ℕ). drop k (le_bytes w n ++ rest)) (sym (length-le_bytes w n))
    ∙ drop-append (le_bytes w n) rest

drop_nil : (b : ℕ) → Path (List ℕ) (drop b []) []
drop_nil zero = refl
drop_nil (suc b) = refl

pub drop-drop : (a b : ℕ) (xs : List ℕ) → drop (a + b) xs ≡ drop b (drop a xs)
drop-drop zero b xs = let e : zero + b ≡ b = omega arith in ap (λ (n : ℕ). drop n xs) e
drop-drop (suc a) b [] =
    let e : suc a + b ≡ suc (a + b) = omega arith in ap (λ (n : ℕ). drop n []) e ∙ sym (drop_nil b)
drop-drop (suc a) b (x ∷ xs) =
    let e : suc a + b ≡ suc (a + b) = omega arith in
    ap (λ (n : ℕ). drop n (x ∷ xs)) e ∙ drop-drop a b xs

-- A field of `w` bytes at `o` is read, and the next one follows.
pub le_value_at :
    (w n o : ℕ) (rest bytes : List ℕ)
    → drop o bytes ≡ le_bytes w n ++ rest
    → n < bound w
    → (le_value w (drop o bytes) ≡ n) × (drop (o + w) bytes ≡ rest)
le_value_at w n o rest bytes h k = (
  ap (le_value w) h ∙ le_value-le_bytes w n rest k,
  drop-drop o w bytes ∙ ap (drop w) h ∙ drop-le_bytes w n rest,
)

pub length-field : (w n : ℕ) (rest : List ℕ) → length (le_bytes w n ++ rest) ≡ w + length rest
length-field w n rest = omega (arith, length-append (le_bytes w n) rest, length-le_bytes w n)
