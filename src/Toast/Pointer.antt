-- ===== src/Toast/Pointer.antt =====
-- server/internal/core/storage/toast/toast.go: the pointer to a value in chunks.
use pro_labs.Common.{
  ℕ, ◌≤◌, ◌≡◌, ◌<◌, refl, arith, Option, none, some, List, [], ◌++◌, length, drop, ltb, le→ltb,
  if◌then◌else◌,
}
use pro_labs.Common.Words.{le_bytes, le_value, length-field, le_value_at}

pub record ToastPointer : Type 0 where
  pub chunk_id : ℕ
  pub total_size : ℕ
  pub n_chunks : ℕ
  pub uncompressed_size : ℕ

pub record IsToastPointer (p : ToastPointer) : Type 0 where
  pub chunk_id_lt : p.chunk_id < 18446744073709551616
  pub total_size_lt : p.total_size < 4294967296
  pub n_chunks_lt : p.n_chunks < 4294967296
  pub uncompressed_size_lt : p.uncompressed_size < 4294967296

unfoldable pub encode : ToastPointer → List ℕ
encode p =
    le_bytes 8 p.chunk_id
    ++ (le_bytes 4 p.total_size
        ++ (le_bytes 4 p.n_chunks ++ (le_bytes 4 p.uncompressed_size ++ [])))

-- None is the error.
unfoldable pub decode_toast_pointer : List ℕ → Option ToastPointer
decode_toast_pointer bytes =
    if ltb (length bytes) 20
    then none
    else some (record {
      chunk_id = le_value 8 bytes;
      total_size = le_value 4 (drop 8 bytes);
      n_chunks = le_value 4 (drop 12 bytes);
      uncompressed_size = le_value 4 (drop 16 bytes);
    })

-- DecodeToastPointer reads the pointer that Encode wrote, if its fields have their widths.
pub decode_toast_pointer-encode :
    (p : ToastPointer) → IsToastPointer p → decode_toast_pointer (encode p) ≡ some p
unfolding decode_toast_pointer encode
decode_toast_pointer-encode p v =
    let t2 = le_bytes 4 p.uncompressed_size ++ [] in
    let t1 = le_bytes 4 p.n_chunks ++ t2 in
    let t0 = le_bytes 4 p.total_size ++ t1 in
    let out = le_bytes 8 p.chunk_id ++ t0 in
    let (f0, d0) = le_value_at 8 p.chunk_id 0 t0 out refl v.chunk_id_lt in
    let (f1, d1) = le_value_at 4 p.total_size 8 t1 out d0 v.total_size_lt in
    let (f2, d2) = le_value_at 4 p.n_chunks 12 t2 out d1 v.n_chunks_lt in
    let (f3, d3) = le_value_at 4 p.uncompressed_size 16 [] out d2 v.uncompressed_size_lt in
    let long : 20 ≤ length out = omega (
      arith,
      length-field 8 p.chunk_id t0,
      length-field 4 p.total_size t1,
      length-field 4 p.n_chunks t2,
      length-field 4 p.uncompressed_size [],
    ) in
    let short = le→ltb (length out) 20 long in rw (short, f0, f1, f2, f3) refl
