-- ===== src/Page/Compact.antt =====
-- server/internal/core/storage/page/page.go: Compact.
use pro_labs.Common.{ℕ, zero, suc, Option, none, some, List, [], ◌∷◌, ◌++◌}
use pro_labs.Page.Bytes.{Page}
use pro_labs.Page.Outcome.{Run, ok, page_full, too_many, corrupted, panic, ◌>>=◌}
use pro_labs.Page.{header, write_header, init, set_lsn, insert_tuple, get_tuple}
use pro_labs.Page.Slots.{tuple_at}

-- `_, _ = tmp.InsertTuple(data)`: the errors are dropped.
unfoldable pub keep : Page → Run (Page × ℕ) → Run Page
keep tmp (ok r) = ok r.0
keep tmp page_full = ok tmp
keep tmp too_many = ok tmp
keep tmp corrupted = ok tmp
keep tmp panic = panic

unfoldable pub copy_slot : Page → Option (List ℕ) → Run Page
copy_slot tmp none = ok tmp
copy_slot tmp (some bytes) = keep tmp (insert_tuple tmp bytes)

-- The loop over the first `n` slots.
unfoldable pub copy_live : Page → ℕ → Page → Run Page
copy_live p zero tmp = ok tmp
copy_live p (suc n) tmp = do t ← copy_live p n tmp; bytes ← get_tuple p n; copy_slot t bytes

unfoldable pub set_flags : Page → ℕ → Page
set_flags p flags = write_header p (record (header p) { flags = flags })

unfoldable pub compact : Page → Run Page
compact p = do
  t ← copy_live p (header p).n_items (init (header p).page_type)
  ok (set_flags (set_lsn t (header p).lsn) (header p).flags)

abbrev pub tuples_of : Option (List ℕ) → List (List ℕ)
tuples_of none = []
tuples_of (some bytes) = bytes ∷ []

-- The tuples of the first `n` slots, without the dead ones.
unfoldable pub live : Page → ℕ → List (List ℕ)
live p zero = []
live p (suc n) = live p n ++ tuples_of (tuple_at p n)
