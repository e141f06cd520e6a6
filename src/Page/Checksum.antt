-- ===== src/Page/Checksum.antt =====
-- server/internal/core/storage/page/page.go: ComputeChecksum, SetChecksum and VerifyChecksum. The
-- function crc32.ChecksumIEEE is a parameter, of which only its 32 bits are used.
use pro_labs.Common.{
  ℕ, zero, suc, ◌+◌, ◌-◌, ◌*◌, ◌/◌, ◌%◌, ◌≤◌, ◌<◌, ◌≡◌, ◌∙◌, ap, Bool, true, List, arith, get_or,
  ◌==◌,
}
use mathlib.Core.Path.{fun_ext}
use pro_labs.Common.Words.{le_bytes, length-le_bytes}
use pro_labs.Page.Bytes.{
  Page, Field, IsBytes, read, slice, write, write_field, page_size, read_field,
}

abbrev checksum_field : ℕ → Field
checksum_field value = record { place = 8; width = 4; value = value }

pub compute_checksum : (List ℕ → ℕ) → Page → Page × ℕ
compute_checksum crc p =
    let p1 = write_field p (checksum_field 0) in
    (write_field p1 (checksum_field (read p 8 4)), crc (slice p1 0 page_size))

pub set_checksum : (List ℕ → ℕ) → Page → Page
set_checksum crc p = let r = compute_checksum crc p in write_field r.0 (checksum_field r.1)

pub verify_checksum : (List ℕ → ℕ) → Page → Bool
verify_checksum crc p = read p 8 4 == (compute_checksum crc p).1

-- The last of two values written to a field stands.
write_field-twice :
    (p : Page) (a b : ℕ)
    → write_field (write_field p (checksum_field a)) (checksum_field b)
      ≡ write_field p (checksum_field b)
unfolding write_field write
write_field-twice p a b = fun_ext (λ i. ground (arith, length-le_bytes 4 a, length-le_bytes 4 b))

get_or-read :
    (p : Page) (off w k : ℕ)
    → IsBytes p
    → k < w
    → get_or (le_bytes w (read p off w)) k 0 ≡ p (off + k)
unfolding read le_bytes
get_or-read p off zero k b h = absurd (omega arith)
get_or-read p off (suc w) zero b h =
    let e : (p off + 256 * read p (off + 1) w) % 256 ≡ p off = omega (arith, b off) in
    e ∙ ap p (omega arith)
get_or-read p off (suc w) (suc k) b h =
    let e : (p off + 256 * read p (off + 1) w) / 256 ≡ read p (off + 1) w = omega (arith, b off) in
    rw e (get_or-read p (off + 1) w k b (omega arith) ∙ ap p (omega arith))

write_field-read : (p : Page) → IsBytes p → write_field p (checksum_field (read p 8 4)) ≡ p
unfolding write_field write
write_field-read p b = fun_ext (λ i.
    let e : 8 ≤ i → p (8 + (i - 8)) ≡ p i = λ h. ap p (omega arith) in
    ground (arith, length-le_bytes 4 (read p 8 4), get_or-read p 8 4 (i - 8) b, e))

-- Computing the checksum of a page of bytes leaves the page as it was.
pub compute_checksum-same :
    (crc : List ℕ → ℕ) (p : Page) → IsBytes p → (compute_checksum crc p).0 ≡ p
unfolding compute_checksum
compute_checksum-same crc p b = write_field-twice p 0 (read p 8 4) ∙ write_field-read p b

-- VerifyChecksum accepts every page behind SetChecksum, if the checksum has 32 bits.
pub verify_checksum-set_checksum :
    (crc : List ℕ → ℕ) (p : Page)
    → ((bytes : List ℕ) → crc bytes < 4294967296)
    → verify_checksum crc (set_checksum crc p) ≡ true
unfolding verify_checksum set_checksum compute_checksum
verify_checksum-set_checksum crc p small =
    let p1 = write_field p (checksum_field 0) in
    let sum = crc (slice p1 0 page_size) in
    let e : write_field (write_field p1 (checksum_field (read p 8 4))) (checksum_field sum)
        ≡ write_field p (checksum_field sum) =
      write_field-twice p1 (read p 8 4) sum ∙ write_field-twice p 0 sum in
    rw
      (
        e,
        write_field-twice p sum 0,
        read_field p (checksum_field sum) (small (slice p1 0 page_size)),
      )
      (ground arith)
