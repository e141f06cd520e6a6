-- ===== src/Page/Outcome.antt =====
-- server/internal/core/storage/page/page.go: what a method of a page comes to.
pub data Run {ℓ} (A : Type ℓ) : Type ℓ where
  ok : A → Run A
  page_full : Run A
  too_many : Run A
  corrupted : Run A
  panic : Run A

infixl 5 ◌>>=◌
abbrev pub ◌>>=◌ {ℓ κ} : {A : Type ℓ} {B : Type κ} → Run A → (A → Run B) → Run B
ok a >>= f = f a
page_full >>= f = page_full
too_many >>= f = too_many
corrupted >>= f = corrupted
panic >>= f = panic

-- The method succeeds, with a result of which `P` holds.
abbrev pub Gives {ℓ} : {A : Type ℓ} → (A → Type 0) → Run A → Type 0
Gives P (ok a) = P a
Gives P page_full = ⊥
Gives P too_many = ⊥
Gives P corrupted = ⊥
Gives P panic = ⊥

pub Gives-bind {ℓ κ} :
    {A : Type ℓ} {B : Type κ} (P : A → Type 0) (Q : B → Type 0) (r : Run A) (f : A → Run B)
    → Gives P r
    → ((a : A) → P a → Gives Q (f a))
    → Gives Q (r >>= f)
Gives-bind P Q (ok a) f h k = k a h
Gives-bind P Q page_full f h k = absurd h
Gives-bind P Q too_many f h k = absurd h
Gives-bind P Q corrupted f h k = absurd h
Gives-bind P Q panic f h k = absurd h
