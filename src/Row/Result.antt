-- ===== src/Row/Result.antt =====
-- server/internal/core/storage/binary_encoding.go: what encoding and decoding come to.
-- An error of encoding, or a result.
pub data Encoded (A : Type 0) : Type 0 where
  encoded : A → Encoded A
  empty_row : Encoded A
  too_long : Encoded A
  bad_json : Encoded A
  unsupported : Encoded A
  tuple_too_large : Encoded A

abbrev pub bind_encoded : {A B : Type 0} → Encoded A → (A → Encoded B) → Encoded B
bind_encoded (encoded a) f = f a
bind_encoded empty_row f = empty_row
bind_encoded too_long f = too_long
bind_encoded bad_json f = bad_json
bind_encoded unsupported f = unsupported
bind_encoded tuple_too_large f = tuple_too_large

-- An error of decoding, the panic, or a result.
pub data Decoded (A : Type 0) : Type 0 where
  decoded : A → Decoded A
  truncated : Decoded A
  unknown_tag : Decoded A
  panic : Decoded A

infixl 5 ◌>>=◌
abbrev pub ◌>>=◌ : {A B : Type 0} → Decoded A → (A → Decoded B) → Decoded B
decoded a >>= f = f a
truncated >>= f = truncated
unknown_tag >>= f = unknown_tag
panic >>= f = panic
