-- ===== src/Toast.antt =====
-- server/internal/core/storage/toast/toast.go: long values in compressed chunks, and the pointers to them.
--
-- The package compress/gzip is two parameters: `deflate` writes a stream, and `inflate n` reads at most `n`
-- bytes of one, as io.LimitReader does; none is an error. Sizes are unsigned numbers of 32 bits.
pub mod Pointer
pub mod Trip
mod Tests
use pro_labs.Common.{
  ℕ, zero, suc, ◌+◌, ◌-◌, ◌*◌, ◌/◌, ◌%◌, Bool, true, false, Option, none, some, List, [], ◌∷◌, ◌++◌,
  ◌&&◌, length, take, drop, ltb, leb, if◌then◌else◌,
}

abbrev pub chunk_size : ℕ
chunk_size = 2000

abbrev pub most_inflated : ℕ
most_inflated = 1073741824

-- An error of gzip, a slice out of range, or a result.
pub data Outcome (A : Type 0) : Type 0 where
  done : A → Outcome A
  failed : Outcome A
  out_of_range : Outcome A

-- `compressed[start:end]`
abbrev pub chunk : List ℕ → ℕ → ℕ → Outcome (List ℕ)
chunk compressed start end =
    if leb start end && leb end (length compressed)
    then done (take (end - start) (drop start compressed))
    else out_of_range

abbrev pub prepend : Outcome (List ℕ) → Outcome (List (List ℕ)) → Outcome (List (List ℕ))
prepend (done c) (done cs) = done (c ∷ cs)
prepend (done c) failed = failed
prepend (done c) out_of_range = out_of_range
prepend failed rest = failed
prepend out_of_range rest = out_of_range

-- The end of chunk `i`.
abbrev pub end_of : ℕ → ℕ → ℕ
end_of total start =
    let end = (start + chunk_size) % 4294967296 in if ltb total end then total else end

-- The loop over the chunks; `left` of them from `i` on.
unfoldable pub chunks_from : List ℕ → ℕ → ℕ → ℕ → Outcome (List (List ℕ))
chunks_from compressed total i zero = done []
chunks_from compressed total i (suc left) =
    let start = (i * chunk_size) % 4294967296 in
    prepend (chunk compressed start (end_of total start))
      (chunks_from compressed total (i + 1) left)

abbrev pub chunk_count : ℕ → ℕ
chunk_count total = ((total + (chunk_size - 1)) % 4294967296) / chunk_size

abbrev pub sized_with : ℕ → Outcome (List (List ℕ)) → Outcome (List (List ℕ) × ℕ)
sized_with total (done cs) = done (cs, total)
sized_with total failed = failed
sized_with total out_of_range = out_of_range

module _ (deflate : List ℕ → Option (List ℕ)) where
  -- ChunkToastedValue behind the compression.
  unfoldable pub chunk_compressed : Option (List ℕ) → Outcome (List (List ℕ) × ℕ)
  chunk_compressed none = failed
  chunk_compressed (some compressed) =
      let total = length compressed % 4294967296 in
      sized_with total (chunks_from compressed total 0 (chunk_count total))

  unfoldable pub chunk_toasted_value : List ℕ → Outcome (List (List ℕ) × ℕ)
  chunk_toasted_value data_bytes = chunk_compressed (deflate data_bytes)

abbrev pub joined_chunks : List (List ℕ) → List ℕ
joined_chunks [] = []
joined_chunks (c ∷ cs) = c ++ joined_chunks cs

unfoldable pub assemble_toasted_value :
    (ℕ → List ℕ → Option (List ℕ)) → List (List ℕ) → Option (List ℕ)
assemble_toasted_value inflate chunks = inflate most_inflated (joined_chunks chunks)
