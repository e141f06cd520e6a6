-- ===== src/Page/Pointer.antt =====
-- server/internal/core/storage/page/itemptr.go: an item pointer gives back what it packs.
use pro_labs.Common.{ℕ, ◌<◌, ◌≡◌, arith}
use pro_labs.Page.{new_item_pointer, ip_offset, ip_length, ip_flags}

-- Offset, Length and Flags of a new item pointer are what it was made of, for an offset below 2^15, a
-- length below 2^14 and flags below 8; and it fits in 32 bits.
pub new_item_pointer_fields :
    (offset len flags : ℕ)
    → offset < 32768
    → len < 16384
    → flags < 8
    → (ip_offset (new_item_pointer offset len flags) ≡ offset)
      × (ip_length (new_item_pointer offset len flags) ≡ len)
      × (ip_flags (new_item_pointer offset len flags) ≡ flags)
      × (new_item_pointer offset len flags < 4294967296)
unfolding new_item_pointer ip_offset ip_length ip_flags
new_item_pointer_fields offset len flags h k f = omega arith

-- A new item pointer fits in 32 bits whatever it is made of.
pub new_item_pointer-lt : (offset len flags : ℕ) → new_item_pointer offset len flags < 4294967296
unfolding new_item_pointer
new_item_pointer-lt offset len flags = omega arith
