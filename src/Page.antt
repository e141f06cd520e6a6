-- ===== src/Page.antt =====
-- server/internal/core/storage/page/page.go and itemptr.go: the slotted page of 8192 bytes.
--
-- A page is the byte at each place; the places past 8192 stand for nothing, and an access there is
-- the panic of the Go slice. uint16 results are reduced by `u16`. The three fields that the packing of
-- an item pointer joins by `|` have no bit in common, so they are added.
-- A method that fails leaves the page as it was, but for `corrupted` and `too_many` of insert_tuple,
-- where bytes of the free space have changed; on a well-formed page neither is reached.
pub mod Bytes
pub mod Outcome
pub mod Pointer
pub mod Header
pub mod Slots
pub mod Insert
pub mod Dead
pub mod Compact
pub mod Copy
pub mod Alike
pub mod Gap
pub mod Trip
pub mod Checksum
pub mod Tuple
mod Tests
use pro_labs.Common.{
  ℕ, zero, suc, ◌+◌, ◌-◌, ◌*◌, ◌/◌, ◌%◌, Bool, true, false, Option, none, some, List, [], ◌∷◌, ◌&&◌,
  ◌||◌, not, length, take, drop, ltb, leb, ◌==◌, if◌then◌else◌,
}
use Bytes.{Page, Field, page_size, read, slice, write, write_field, write_all}
use pro_labs.Common.Words.{le_bytes}
use Outcome.{Run, ok, page_full, too_many, corrupted, panic, ◌>>=◌}

abbrev pub u16 : ℕ
u16 = 65536

abbrev pub page_header_size : ℕ
page_header_size = 28

abbrev pub item_pointer_size : ℕ
item_pointer_size = 4

abbrev pub max_tuple_length : ℕ
max_tuple_length = 16383

abbrev pub item_flag_normal : ℕ
item_flag_normal = 0

abbrev pub item_flag_dead : ℕ
item_flag_dead = 1

pub new_item_pointer : ℕ → ℕ → ℕ → ℕ
new_item_pointer offset len flags = offset * 131072 % 4294967296 + len % 16384 * 8 + flags % 8

pub ip_offset : ℕ → ℕ
ip_offset ip = ip / 131072 % u16

pub ip_length : ℕ → ℕ
ip_length ip = ip / 8 % 16384

pub ip_flags : ℕ → ℕ
ip_flags ip = ip % 8

pub record PageHeader : Type 0 where
  pub lsn : ℕ
  pub checksum : ℕ
  pub flags : ℕ
  pub lower : ℕ
  pub upper : ℕ
  pub special : ℕ
  pub page_type : ℕ
  pub n_items : ℕ
  pub free_space : ℕ

pub header : Page → PageHeader
header p = record {
  lsn = read p 0 8;
  checksum = read p 8 4;
  flags = read p 12 2;
  lower = read p 14 2;
  upper = read p 16 2;
  special = read p 18 2;
  page_type = read p 20 1;
  n_items = read p 21 2;
  free_space = read p 23 2;
}

abbrev pub header_fields : PageHeader → List Field
header_fields h =
    record { place = 0; width = 8; value = h.lsn }
    ∷ record { place = 8; width = 4; value = h.checksum }
    ∷ record { place = 12; width = 2; value = h.flags }
    ∷ record { place = 14; width = 2; value = h.lower }
    ∷ record { place = 16; width = 2; value = h.upper }
    ∷ record { place = 18; width = 2; value = h.special }
    ∷ record { place = 20; width = 1; value = h.page_type }
    ∷ record { place = 21; width = 2; value = h.n_items }
    ∷ record { place = 23; width = 2; value = h.free_space }
    ∷ []

pub write_header : Page → PageHeader → Page
write_header p h = write_all p (header_fields h)

abbrev pub init_header : ℕ → PageHeader
init_header page_type = record {
  lsn = 0;
  checksum = 0;
  flags = 0;
  lower = page_header_size;
  upper = page_size;
  special = page_size;
  page_type = page_type;
  n_items = 0;
  free_space = page_size - page_header_size;
}

pub init : ℕ → Page
init page_type = write_header (λ i. 0) (init_header page_type)

pub set_lsn : Page → ℕ → Page
set_lsn p lsn = write_field p (record { place = 0; width = 8; value = lsn })

pub free_space : Page → ℕ
free_space p = let h = header p in if leb h.upper h.lower then 0 else h.upper - h.lower

-- `copy(p[off:], bytes)`
pub copy_in : Page → ℕ → List ℕ → Run Page
copy_in p off bytes =
    if leb off page_size then ok (write p off (take (page_size - off) bytes)) else panic

-- `binary.LittleEndian.PutUint32(p[off:], value)`
pub put_uint32 : Page → ℕ → ℕ → Run Page
put_uint32 p off value =
    if leb (off + 4) page_size
    then ok (write_field p (record { place = off; width = 4; value = value }))
    else panic

pub item_pointer_offset : ℕ → ℕ
item_pointer_offset slot = (page_header_size + slot * item_pointer_size % u16) % u16

pub item_pointer : Page → ℕ → Run ℕ
item_pointer p slot =
    if leb (item_pointer_offset slot + 4) page_size
    then ok (read p (item_pointer_offset slot) 4)
    else panic

-- `p[off : off+len]`
pub slice_of : Page → ℕ → ℕ → Run (List ℕ)
slice_of p off len =
    let end = (off + len) % u16 in
    if leb off end && leb end page_size then ok (slice p off (end - off)) else panic

-- The part of InsertTuple behind the test for room.
pub place_tuple : Page → PageHeader → List ℕ → Run (Page × ℕ)
place_tuple p h bytes =
    let len = length bytes % u16 in
    let offset = (h.upper + u16 - len) % u16 in
    let lower = (h.lower + item_pointer_size) % u16 in
    let h' = record h {
      upper = offset;
      lower = lower;
      n_items = h.n_items + 1;
      free_space = (offset + u16 - lower) % u16;
    } in
    if ltb h.upper offset then corrupted else do
      p1 ← copy_in p offset bytes
      p2 ← put_uint32 p1 h.lower (new_item_pointer offset len item_flag_normal)
      if h.n_items == 65535
          then too_many
          else if ltb offset lower
          then corrupted
          else ok (write_header p2 h', h.n_items)

pub insert_tuple : Page → List ℕ → Run (Page × ℕ)
insert_tuple p bytes =
    if ltb max_tuple_length (length bytes)
    then page_full
    else if ltb (free_space p) ((length bytes % u16 + item_pointer_size) % u16)
    then page_full
    else place_tuple p (header p) bytes

pub get_tuple : Page → ℕ → Run (Option (List ℕ))
get_tuple p slot = if leb (header p).n_items slot then ok none else do
  ip ← item_pointer p slot
  if ip_flags ip == item_flag_dead
      then ok none
      else do bytes ← slice_of p (ip_offset ip) (ip_length ip); ok (some bytes)

pub mark_dead : Page → ℕ → Run Page
mark_dead p slot = if leb (header p).n_items slot then ok p else do
  ip ← item_pointer p slot
  put_uint32 p (item_pointer_offset slot)
      (new_item_pointer (ip_offset ip) (ip_length ip) item_flag_dead)
