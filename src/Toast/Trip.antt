-- ===== src/Toast/Trip.antt =====
-- server/internal/core/storage/toast/toast.go: the chunks of a value, and the value that they give back.
use pro_labs.Common.{
  ℕ, zero, suc, ◌+◌, ◌-◌, ◌*◌, ◌%◌, ◌≤◌, ◌<◌, ◌≡◌, refl, sym, ap, ◌∙◌, arith, Option, some, List,
  [], ◌∷◌, ◌++◌, length, take, drop, take-drop, length-take, length-drop, All, ◌⊎◌, inl, inr,
}
use pro_labs.Common.Words.{drop-drop}
use pro_labs.Toast.{
  chunk_size, most_inflated, Outcome, done, chunk, end_of, chunks_from, chunk_count, sized_with,
  chunk_compressed, chunk_toasted_value, joined_chunks, assemble_toasted_value,
}

-- What a chunk may be: of one to two thousand bytes.
abbrev pub IsChunk : List ℕ → Type 0
IsChunk c = (1 ≤ length c) × (length c ≤ chunk_size)

drop_all : (n : ℕ) (xs : List ℕ) → length xs ≤ n → Path (List ℕ) (drop n xs) []
drop_all zero [] h = refl
drop_all zero (x ∷ xs) h = absurd (omega arith)
drop_all (suc n) [] h = refl
drop_all (suc n) (x ∷ xs) h = drop_all n xs (omega arith)

drop_either :
    (a b : ℕ) (xs : List ℕ) → (a ≡ b) ⊎ ((length xs ≤ a) × (length xs ≤ b)) → drop a xs ≡ drop b xs
drop_either a b xs (inl e) = ap (λ (n : ℕ). drop n xs) e
drop_either a b xs (inr (h, k)) = drop_all a xs h ∙ sym (drop_all b xs k)

-- What the loop leaves from chunk `i` on.
abbrev Chunks : List ℕ → ℕ → ℕ → Outcome (List (List ℕ)) → Type 0
Chunks compressed i left result =
    (cs : List (List ℕ)) × (result ≡ done cs)
    × (joined_chunks cs ≡ drop (i * chunk_size) compressed)
    × All IsChunk cs
    × (length cs ≡ left)

chunks_from-Chunks :
    (compressed : List ℕ) (i left : ℕ)
    → length compressed + 2000 < 4294967296
    → length compressed ≤ (i + left) * 2000
    → (i + left) * 2000 < length compressed + 2000
    → Chunks compressed i left (chunks_from compressed (length compressed) i left)
unfolding chunks_from
chunks_from-Chunks compressed i zero small h k =
    ([], refl, sym (drop_all (i * 2000) compressed (omega arith)), tt, refl)
chunks_from-Chunks compressed i (suc left) small h k =
    let total = length compressed in
    let start = (i * chunk_size) % 4294967296 in
    let end = end_of total start in
    let (cs, e, j, a, l) =
      chunks_from-Chunks compressed (i + 1) left small (omega arith) (omega arith) in
    let from : start ≡ i * 2000 = omega arith in
    let inside : (start < end) × (end ≤ start + 2000) × (end ≤ total) = ground arith in
    let part = take (end - start) (drop start compressed) in
    let size : length part ≡ end - start =
      omega
        (arith, length-take (end - start) (drop start compressed), length-drop start compressed) in
    let cut : chunk compressed start end ≡ done part = ground (arith, inside) in
    let next : (start + (end - start) ≡ (i + 1) * chunk_size)
        ⊎ ((total ≤ start + (end - start)) × (total ≤ (i + 1) * chunk_size)) =
      ground (arith, from, inside) in
    let back : joined_chunks cs ≡ drop (end - start) (drop start compressed) =
      j
      ∙ sym (drop_either (start + (end - start)) ((i + 1) * chunk_size) compressed next)
      ∙ drop-drop start (end - start) compressed in
    let whole : part ++ joined_chunks cs ≡ drop (i * chunk_size) compressed =
      ap (λ (xs : List ℕ). part ++ xs) back
      ∙ take-drop (end - start) (drop start compressed)
      ∙ ap (λ (n : ℕ). drop n compressed) from in
    (part ∷ cs, rw (cut, e) refl, whole, ((omega arith, omega arith), a), ap suc l)

module _ (deflate : List ℕ → Option (List ℕ)) (inflate : ℕ → List ℕ → Option (List ℕ)) where
  -- Reading a stream that was written, up to a limit, gives the bytes up to the limit.
  abbrev pub IsGzip : Type 0
  IsGzip =
      (limit : ℕ) (data_bytes compressed : List ℕ)
      → deflate data_bytes ≡ some compressed
      → inflate limit compressed ≡ some (take limit data_bytes)

  -- ChunkToastedValue makes chunks of one to 2000 bytes, as many as the size needs, and
  -- AssembleToastedValue gives back the first 2^30 bytes of the value. The compressed value is
  -- shorter than 2^32 - 2000 bytes, and reading a stream up to a limit gives the bytes that were
  -- written, up to the limit.
  pub assemble_toasted_value-chunk_toasted_value :
      (data_bytes compressed : List ℕ)
      → IsGzip
      → deflate data_bytes ≡ some compressed
      → length compressed + 2000 < 4294967296
      → (cs : List (List ℕ)) × (chunk_toasted_value deflate data_bytes
          ≡ done (cs, length compressed))
        × (length cs ≡ chunk_count (length compressed))
        × All IsChunk cs
        × (assemble_toasted_value inflate cs ≡ some (take most_inflated data_bytes))
  unfolding chunk_toasted_value chunk_compressed assemble_toasted_value
  assemble_toasted_value-chunk_toasted_value data_bytes compressed gzip e small =
      let total = length compressed in
      let same : total % 4294967296 ≡ total = omega arith in
      let (cs, c, j, a, l) =
        chunks_from-Chunks compressed 0 (chunk_count total) small (omega arith) (omega arith) in
      (
        cs,
        ap (chunk_compressed deflate) e
            ∙ ap (λ (n : ℕ). sized_with n (chunks_from compressed n 0 (chunk_count n))) same
            ∙ ap (sized_with total) c,
        l,
        a,
        ap (inflate most_inflated) j ∙ gzip most_inflated data_bytes compressed e,
      )
