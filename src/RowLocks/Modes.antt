-- ===== src/RowLocks/Modes.antt =====
-- server/internal/core/storage/lock_manager.go: the lock modes.
use pro_labs.Common.{ℕ, Bool, true, false}

pub data LockMode : Type 0 where
  none share update : LockMode

abbrev pub is_update : LockMode → Bool
is_update none = false
is_update share = false
is_update update = true

-- The value of the constant, which `<` compares.
abbrev pub rank : LockMode → ℕ
rank none = 0
rank share = 1
rank update = 2
