-- ===== src/Page/Header.antt =====
-- server/internal/core/storage/page/page.go: Header reads what writeHeader writes.
use pro_labs.Common.{ℕ, ◌+◌, ◌<◌, ◌≤◌, ◌≡◌, [], arith, drop, take}
use pro_labs.Page.Bytes.{
  Page, IsBytes, read, slice, write_all, read_among, read-AllApart, slice-AllApart, read-lt,
  write_all-IsBytes,
}
use pro_labs.Page.{PageHeader, header, header_fields, write_header}

-- Every field fits its width.
pub record Fits (h : PageHeader) : Type 0 where
  pub lsn : h.lsn < 18446744073709551616
  pub checksum : h.checksum < 4294967296
  pub flags : h.flags < 65536
  pub lower : h.lower < 65536
  pub upper : h.upper < 65536
  pub special : h.special < 65536
  pub page_type : h.page_type < 256
  pub n_items : h.n_items < 65536
  pub free_space : h.free_space < 65536

pub header-Fits : (p : Page) → IsBytes p → Fits (header p)
unfolding header
header-Fits p b = record {
  lsn = read-lt p 0 8 b;
  checksum = read-lt p 8 4 b;
  flags = read-lt p 12 2 b;
  lower = read-lt p 14 2 b;
  upper = read-lt p 16 2 b;
  special = read-lt p 18 2 b;
  page_type = read-lt p 20 1 b;
  n_items = read-lt p 21 2 b;
  free_space = read-lt p 23 2 b;
}

-- Header gives back every field of the header that writeHeader wrote, if each fits its width.
pub header-write_header : (p : Page) (h : PageHeader) → Fits h → header (write_header p h) ≡ h
unfolding header write_header write_all
header-write_header p h f = λ i. record {
  lsn =
      read_among p (record { place = 0; width = 8; value = h.lsn }) (drop 1 (header_fields h)) f.lsn
        (omega arith) i;
  checksum =
      read_among (write_all p (take 1 (header_fields h)))
        (record { place = 8; width = 4; value = h.checksum }) (drop 2 (header_fields h)) f.checksum
        (omega arith) i;
  flags =
      read_among (write_all p (take 2 (header_fields h)))
        (record { place = 12; width = 2; value = h.flags }) (drop 3 (header_fields h)) f.flags
        (omega arith) i;
  lower =
      read_among (write_all p (take 3 (header_fields h)))
        (record { place = 14; width = 2; value = h.lower }) (drop 4 (header_fields h)) f.lower
        (omega arith) i;
  upper =
      read_among (write_all p (take 4 (header_fields h)))
        (record { place = 16; width = 2; value = h.upper }) (drop 5 (header_fields h)) f.upper
        (omega arith) i;
  special =
      read_among (write_all p (take 5 (header_fields h)))
        (record { place = 18; width = 2; value = h.special }) (drop 6 (header_fields h)) f.special
        (omega arith) i;
  page_type =
      read_among (write_all p (take 6 (header_fields h)))
        (record { place = 20; width = 1; value = h.page_type }) (drop 7 (header_fields h))
        f.page_type (omega arith) i;
  n_items =
      read_among (write_all p (take 7 (header_fields h)))
        (record { place = 21; width = 2; value = h.n_items }) (drop 8 (header_fields h)) f.n_items
        (omega arith) i;
  free_space =
      read_among (write_all p (take 8 (header_fields h)))
        (record { place = 23; width = 2; value = h.free_space }) [] f.free_space tt i;
}

-- The header is the first 25 bytes.
pub read-write_header :
    (p : Page) (h : PageHeader) (off n : ℕ)
    → 25 ≤ off
    → read (write_header p h) off n ≡ read p off n
unfolding write_header
read-write_header p h off n past = read-AllApart p (header_fields h) off n (omega arith)

pub slice-write_header :
    (p : Page) (h : PageHeader) (off n : ℕ)
    → 25 ≤ off
    → slice (write_header p h) off n ≡ slice p off n
unfolding write_header
slice-write_header p h off n past = slice-AllApart p (header_fields h) off n (omega arith)

pub write_header-IsBytes : (p : Page) (h : PageHeader) → IsBytes p → IsBytes (write_header p h)
unfolding write_header
write_header-IsBytes p h b = write_all-IsBytes p (header_fields h) b

-- Pages with the same reads from the first 25 bytes have the same header.
pub header_cong :
    (p q : Page) → ((off n : ℕ) → off + n ≤ 25 → read q off n ≡ read p off n) → header q ≡ header p
unfolding header
header_cong p q e = λ i. record {
  lsn = e 0 8 (omega arith) i;
  checksum = e 8 4 (omega arith) i;
  flags = e 12 2 (omega arith) i;
  lower = e 14 2 (omega arith) i;
  upper = e 16 2 (omega arith) i;
  special = e 18 2 (omega arith) i;
  page_type = e 20 1 (omega arith) i;
  n_items = e 21 2 (omega arith) i;
  free_space = e 23 2 (omega arith) i;
}
