-- ===== src/Row/Flags.antt =====
-- server/internal/core/storage/binary_encoding.go: the flags in the upper 16 bits of the first word of
-- a tuple. A mask with one bit is a quotient and a remainder, and setting the bit an addition. A tuple of
-- less than eight bytes is the panic of the slice.
use pro_labs.Common.{
  ℕ, zero, suc, ◌+◌, ◌*◌, ◌/◌, ◌%◌, ◌≤◌, ◌<◌, ◌≡◌, ap, ◌∙◌, arith, Bool, true, false, List, [], ◌∷◌,
  ◌++◌, length, drop, leb, ◌==◌, if◌then◌else◌, length-append, All,
}
use pro_labs.Common.Words.{
  drop-le_bytes, le_bytes, le_value, bound, le_value-le_bytes, length-le_bytes,
}
use pro_labs.Row.Result.{Decoded, decoded, panic, ◌>>=◌}

abbrev pub hot_updated : ℕ
hot_updated = 281474976710656

abbrev pub hot_heap_tuple : ℕ
hot_heap_tuple = 562949953421312

abbrev pub forward_shift : ℕ
forward_shift = 1125899906842624

abbrev pub xmin_committed : ℕ
xmin_committed = 4611686018427387904

abbrev pub xmax_committed : ℕ
xmax_committed = 9223372036854775808

-- `val & flag != 0`
abbrev pub has_flag : ℕ → ℕ → Bool
has_flag flag word = (word / flag) % 2 == 1

-- `val | flag`
abbrev pub with_flag : ℕ → ℕ → ℕ
with_flag flag word = if (word / flag) % 2 == 1 then word else word + flag

-- The fourteen bits from 50 on are all that is above.
abbrev pub forward_of : ℕ → ℕ
forward_of word = (word / forward_shift) % 16384

abbrev pub with_forward : ℕ → ℕ → ℕ
with_forward slot word = word % forward_shift + (slot % 16384) * forward_shift

unfoldable pub read_word : {A : Type 0} → (ℕ → A) → List ℕ → Decoded A
read_word f tuple = if leb 8 (length tuple) then decoded (f (le_value 8 tuple)) else panic

unfoldable pub change_word : (ℕ → ℕ) → List ℕ → Decoded (List ℕ)
change_word f tuple =
    if leb 8 (length tuple)
    then decoded (le_bytes 8 (f (le_value 8 tuple)) ++ drop 8 tuple)
    else panic

abbrev pub is_hot_updated : List ℕ → Decoded Bool
is_hot_updated = read_word (has_flag hot_updated)

abbrev pub is_hot_heap_tuple : List ℕ → Decoded Bool
is_hot_heap_tuple = read_word (has_flag hot_heap_tuple)

abbrev pub get_forward_slot : List ℕ → Decoded ℕ
get_forward_slot = read_word forward_of

abbrev pub set_hot_updated : ℕ → List ℕ → Decoded (List ℕ)
set_hot_updated slot = change_word (λ word. with_forward slot (with_flag hot_updated word))

abbrev pub set_hot_heap_tuple : List ℕ → Decoded (List ℕ)
set_hot_heap_tuple = change_word (with_flag hot_heap_tuple)

abbrev pub is_xmin_committed : List ℕ → Decoded Bool
is_xmin_committed = read_word (has_flag xmin_committed)

abbrev pub set_xmin_committed : List ℕ → Decoded (List ℕ)
set_xmin_committed = change_word (with_flag xmin_committed)

abbrev pub is_xmax_committed : List ℕ → Decoded Bool
is_xmax_committed = read_word (has_flag xmax_committed)

abbrev pub set_xmax_committed : List ℕ → Decoded (List ℕ)
set_xmax_committed = change_word (with_flag xmax_committed)

abbrev pub IsBytes : List ℕ → Type 0
IsBytes = All (λ b. b < 256)

le_value-lt : (w : ℕ) (bytes : List ℕ) → IsBytes bytes → le_value w bytes < bound w
unfolding le_value
le_value-lt zero bytes h = omega arith
le_value-lt (suc w) [] h = omega (arith, le_value-lt w [] tt)
le_value-lt (suc w) (b ∷ bytes) h = omega (arith, le_value-lt w bytes h.1, h.0)

-- A word that was written is read, by each reader.
read_word-change_word :
    {A : Type 0} (g : ℕ → A) (f : ℕ → ℕ) (tuple : List ℕ)
    → 8 ≤ length tuple
    → f (le_value 8 tuple) < 18446744073709551616
    → (change_word f tuple >>= read_word g) ≡ decoded (g (f (le_value 8 tuple)))
unfolding read_word change_word
read_word-change_word g f tuple h k =
    let word = f (le_value 8 tuple) in
    let l = length-append (le_bytes 8 word) (drop 8 tuple) in
    let e = le_value-le_bytes 8 word (drop 8 tuple) k in
    ground (arith, l, e, length-le_bytes 8 word)

updated_word :
    (slot word : ℕ)
    → slot < 16384
    → word < 18446744073709551616
    → (with_forward slot (with_flag hot_updated word) < 18446744073709551616)
      × (forward_of (with_forward slot (with_flag hot_updated word)) ≡ slot)
      × (has_flag hot_updated (with_forward slot (with_flag hot_updated word)) ≡ true)
      × (has_flag hot_heap_tuple (with_forward slot (with_flag hot_updated word))
          ≡ has_flag hot_heap_tuple word)
updated_word slot word h k = (ground arith, ground arith, ground arith, ground arith)

-- Two changes of the word are one.
change_word-change_word :
    (g f : ℕ → ℕ) (tuple : List ℕ)
    → f (le_value 8 tuple) < 18446744073709551616
    → (change_word f tuple >>= change_word g) ≡ change_word (λ (w : ℕ). g (f w)) tuple
unfolding change_word
change_word-change_word g f tuple k =
    let word = f (le_value 8 tuple) in
    let l = length-append (le_bytes 8 word) (drop 8 tuple) in
    let e = le_value-le_bytes 8 word (drop 8 tuple) k in
    let d = drop-le_bytes 8 word (drop 8 tuple) in ground (arith, l, e, d, length-le_bytes 8 word)

-- The link of a tuple: the slot that SetHOTUpdated writes is the one that GetForwardSlot reads, the tuple
-- is marked as updated, and whether it is a heap-only tuple stays as it was. The slot has fourteen bits,
-- and the tuple eight bytes or more.
pub set_hot_updated_lem :
    (slot : ℕ) (tuple : List ℕ)
    → IsBytes tuple
    → 8 ≤ length tuple
    → slot < 16384
    → ((set_hot_updated slot tuple >>= get_forward_slot) ≡ decoded slot)
      × ((set_hot_updated slot tuple >>= is_hot_updated) ≡ decoded true)
      × ((set_hot_updated slot tuple >>= is_hot_heap_tuple) ≡ is_hot_heap_tuple tuple)
unfolding read_word
set_hot_updated_lem slot tuple bytes h k =
    let word = le_value 8 tuple in
    let set : ℕ → ℕ = λ (w : ℕ). with_forward slot (with_flag hot_updated w) in
    let (fits, forward, updated, heap) = updated_word slot word k (le_value-lt 8 tuple bytes) in
    (
      read_word-change_word forward_of set tuple h fits ∙ ap decoded forward,
      read_word-change_word (has_flag hot_updated) set tuple h fits ∙ ap decoded updated,
      read_word-change_word (has_flag hot_heap_tuple) set tuple h fits ∙ ground (arith, heap),
    )

committed_word :
    (slot word : ℕ)
    → slot < 4096
    → word < 18446744073709551616
    → (with_flag xmin_committed (with_forward slot (with_flag hot_updated word))
        < 18446744073709551616)
      × (forward_of (with_flag xmin_committed (with_forward slot (with_flag hot_updated word)))
          ≡ slot + 4096)
committed_word slot word h k = (ground arith, ground arith)

cleared_word :
    (slot word : ℕ)
    → slot < 4096
    → word < 18446744073709551616
    → (with_flag xmin_committed word < 18446744073709551616)
      × (with_forward slot (with_flag hot_updated (with_flag xmin_committed word))
          < 18446744073709551616)
      × (has_flag xmin_committed
            (with_forward slot (with_flag hot_updated (with_flag xmin_committed word)))
          ≡ false)
cleared_word slot word h k = (ground arith, ground arith, ground arith)

-- The flag of the committed creator lies inside the fourteen bits of the link: if SetXMinCommitted
-- comes after SetHOTUpdated, GetForwardSlot gives a slot 4096 further, and if it comes before,
-- SetHOTUpdated clears the flag. The slot is below 4096, and the tuple has eight bytes or more.
pub set_xmin_committed_overlap :
    (slot : ℕ) (tuple : List ℕ)
    → IsBytes tuple
    → 8 ≤ length tuple
    → slot < 4096
    → ((set_hot_updated slot tuple >>= set_xmin_committed >>= get_forward_slot)
        ≡ decoded (slot + 4096))
      × ((set_xmin_committed tuple >>= set_hot_updated slot >>= is_xmin_committed) ≡ decoded false)
set_xmin_committed_overlap slot tuple bytes h k =
    let word = le_value 8 tuple in
    let small = le_value-lt 8 tuple bytes in
    let set : ℕ → ℕ = λ (w : ℕ). with_forward slot (with_flag hot_updated w) in
    let commit : ℕ → ℕ = with_flag xmin_committed in
    let (fits, moved) = committed_word slot word k small in
    let (first, second, lost) = cleared_word slot word k small in
    let set_fits = (updated_word slot word (omega arith) small).0 in
    (
      ap (λ (t : Decoded (List ℕ)). t >>= get_forward_slot)
            (change_word-change_word commit set tuple set_fits)
          ∙ read_word-change_word forward_of (λ (w : ℕ). commit (set w)) tuple h fits
          ∙ ap decoded moved,
      ap (λ (t : Decoded (List ℕ)). t >>= is_xmin_committed)
            (change_word-change_word set commit tuple first)
          ∙ read_word-change_word (has_flag xmin_committed) (λ (w : ℕ). set (commit w)) tuple h
              second
          ∙ ap decoded lost,
    )
