-- ===== src/PageLocks/Tests.antt =====
-- server/internal/core/storage/page_lock.go: runs on three pages, and the theorems at them.
use pro_labs.Common.{ℕ, ◌≡◌, refl, true, none, some, List, [], ◌∷◌}
use pro_labs.PageLocks.{
  PageId, PageLockManager, new_page_lock_manager, set_stripe, r_lock_page, unlock_page, lock_page,
  unlock_page_write, gather, move_left, sort_stripes, stripes_of, lock_all, lock_table,
  unlock_table,
}
use pro_labs.PageLocks.Order.{Waiting, WaitChain, WaitChain-acyclic}
use pro_labs.PageLocks.Release.{unlock_table-lock_table}

abbrev first_page : PageId
first_page = record { table_id = 1; segment_no = 0; page_no = 0 }

abbrev second_page : PageId
second_page = record { table_id = 1; segment_no = 0; page_no = 1 }

-- The second page comes first, and once more.
abbrev sample : List PageId
sample = second_page ∷ first_page ∷ second_page ∷ []

stripes_run : stripes_of sample ≡ 403 ∷ 2082 ∷ []
unfolding stripes_of sort_stripes move_left gather
stripes_run = refl

abbrev sample_locked : PageLockManager
sample_locked =
    set_stripe 2082 (record { readers = 0; writer = true })
      (set_stripe 403 (record { readers = 0; writer = true }) new_page_lock_manager)

lock_table_runs : lock_table sample new_page_lock_manager ≡ some sample_locked
unfolding stripes_of sort_stripes move_left gather lock_all
lock_table_runs = refl

-- A reader of a page keeps its table from being locked, until it leaves; a second writer waits.
page_runs :
    (lock_page first_page sample_locked ≡ none)
    × (unlock_page first_page new_page_lock_manager ≡ none)
    × (unlock_page_write first_page new_page_lock_manager ≡ none)
    × (r_lock_page first_page sample_locked ≡ none)
page_runs = (refl, refl, refl, refl)

unlock_table-lock_table_example :
    (last : PageLockManager) × (unlock_table sample sample_locked ≡ some last)
    × ((x : ℕ) → last x ≡ new_page_lock_manager x)
unlock_table-lock_table_example =
    unlock_table-lock_table sample new_page_lock_manager sample_locked lock_table_runs

-- It has the first stripe and waits for the second.
abbrev waiting : Waiting
waiting = record { pids = sample; held = 403 ∷ []; wanted = 2082; left = []; split = stripes_run }

WaitChain-acyclic_example : ¬ WaitChain waiting (waiting ∷ []) waiting
WaitChain-acyclic_example = WaitChain-acyclic waiting (waiting ∷ [])
