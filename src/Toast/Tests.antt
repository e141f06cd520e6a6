-- ===== src/Toast/Tests.antt =====
-- server/internal/core/storage/toast/toast.go: runs on a short value, and the theorems at it.
use pro_labs.Common.{
  ℕ, ◌≡◌, refl, arith, Option, none, some, List, [], ◌∷◌, length, take, replicate, All,
}
use pro_labs.Toast.{
  done, failed, chunks_from, chunk_count, chunk_compressed, chunk_toasted_value,
  assemble_toasted_value, most_inflated,
}
use pro_labs.Toast.Pointer.{ToastPointer, encode, decode_toast_pointer, decode_toast_pointer-encode}
use pro_labs.Toast.Trip.{IsChunk, IsGzip, assemble_toasted_value-chunk_toasted_value}

-- Values are written as they are.
abbrev stored : List ℕ → Option (List ℕ)
stored bytes = some bytes

abbrev loaded : ℕ → List ℕ → Option (List ℕ)
loaded limit bytes = some (take limit bytes)

abbrev value_of : ℕ → List ℕ
value_of n = replicate n 7

chunk_toasted_value_runs :
    (chunk_toasted_value stored [] ≡ done ([], 0))
    × (chunk_toasted_value stored (value_of 3) ≡ done (value_of 3 ∷ [], 3))
    × (chunk_toasted_value (λ bytes. none) (value_of 3) ≡ failed)
unfolding chunk_toasted_value chunk_compressed chunks_from
chunk_toasted_value_runs = (refl, refl, refl)

stored-IsGzip : IsGzip stored loaded
stored-IsGzip limit bytes compressed e = cc (e)

assemble_toasted_value-chunk_toasted_value_example :
    (cs : List (List ℕ)) × (chunk_toasted_value stored (value_of 5) ≡ done (cs, 5))
    × (length cs ≡ chunk_count 5)
    × All IsChunk cs
    × (assemble_toasted_value loaded cs ≡ some (take most_inflated (value_of 5)))
assemble_toasted_value-chunk_toasted_value_example =
    assemble_toasted_value-chunk_toasted_value stored loaded (value_of 5) (value_of 5) stored-IsGzip
      refl (omega arith)

abbrev sample : ToastPointer
sample = record { chunk_id = 258; total_size = 2001; n_chunks = 2; uncompressed_size = 4096 }

decode_toast_pointer_runs : decode_toast_pointer (1 ∷ 2 ∷ []) ≡ none
unfolding decode_toast_pointer
decode_toast_pointer_runs = refl

decode_toast_pointer-encode_example : decode_toast_pointer (encode sample) ≡ some sample
decode_toast_pointer-encode_example = decode_toast_pointer-encode sample (record {
  chunk_id_lt = omega arith;
  total_size_lt = omega arith;
  n_chunks_lt = omega arith;
  uncompressed_size_lt = omega arith;
})
