-- ===== src/PageLocks.antt =====
-- server/internal/core/storage/page_lock.go: locks of pages, striped over 4096 mutexes.
--
-- sync.RWMutex is its number of readers and whether a writer has it; a call that would wait gives none, and
-- so does a release of what is not held, which Go ends with a fatal error. The map `seen` is the list of the
-- stripes that were taken up.
pub mod Stripes
pub mod Order
pub mod Release
mod Tests
use Prim.Native.Nat.{bit_xor}
use pro_labs.Common.{
  ℕ, zero, suc, ◌+◌, ◌-◌, ◌*◌, ◌%◌, Bool, true, false, not, Option, none, some, List, [], ◌∷◌, ◌++◌,
  ◌&&◌, map, ltb, ◌==◌, if◌then◌else◌,
}
use pro_labs.Bitmap.Slots.{among}

pub record PageId : Type 0 where
  pub table_id : ℕ
  pub segment_no : ℕ
  pub page_no : ℕ

abbrev pub num_page_locks : ℕ
num_page_locks = 4096

pub record RwMutex : Type 0 where
  pub readers : ℕ
  pub writer : Bool

abbrev pub PageLockManager : Type 0
PageLockManager = ℕ → RwMutex

abbrev pub new_page_lock_manager : PageLockManager
new_page_lock_manager stripe = record { readers = 0; writer = false }

-- The products and the exclusive or are of 32 bits.
abbrev pub stripe_of : PageId → ℕ
stripe_of pid =
    bit_xor
      (bit_xor ((pid.table_id * 16777619) % 4294967296)
        ((pid.segment_no * 1140071481) % 4294967296))
      ((pid.page_no * 2654435761) % 4294967296)
    % num_page_locks

abbrev pub set_stripe : ℕ → RwMutex → PageLockManager → PageLockManager
set_stripe stripe m locks = λ s. if stripe == s then m else locks s

abbrev pub r_lock : ℕ → PageLockManager → Option PageLockManager
r_lock stripe locks =
    if (locks stripe).writer
    then none
    else some
        (set_stripe stripe (record { readers = (locks stripe).readers + 1; writer = false }) locks)

abbrev pub r_unlock : ℕ → PageLockManager → Option PageLockManager
r_unlock stripe locks =
    if (locks stripe).readers == 0
    then none
    else some (
        set_stripe stripe
          (record { readers = (locks stripe).readers - 1; writer = (locks stripe).writer }) locks)

abbrev pub lock : ℕ → PageLockManager → Option PageLockManager
lock stripe locks =
    if not (locks stripe).writer && ((locks stripe).readers == 0)
    then some (set_stripe stripe (record { readers = 0; writer = true }) locks)
    else none

abbrev pub unlock : ℕ → PageLockManager → Option PageLockManager
unlock stripe locks =
    if (locks stripe).writer
    then some
        (set_stripe stripe (record { readers = (locks stripe).readers; writer = false }) locks)
    else none

abbrev pub r_lock_page : PageId → PageLockManager → Option PageLockManager
r_lock_page pid = r_lock (stripe_of pid)

abbrev pub unlock_page : PageId → PageLockManager → Option PageLockManager
unlock_page pid = r_unlock (stripe_of pid)

abbrev pub lock_page : PageId → PageLockManager → Option PageLockManager
lock_page pid = lock (stripe_of pid)

abbrev pub unlock_page_write : PageId → PageLockManager → Option PageLockManager
unlock_page_write pid = unlock (stripe_of pid)

-- The first loop: the stripes of the pages, each once, behind those that were seen.
unfoldable pub gather : List ℕ → List PageId → List ℕ
gather seen [] = []
gather seen (pid ∷ pids) =
    let stripe = stripe_of pid in
    let rest = gather seen pids in
    let more = gather (stripe ∷ seen) pids in if among stripe seen then rest else stripe ∷ more

-- The inner loop of the sort: a stripe moves to the left, past all that are above it.
unfoldable pub move_left : ℕ → List ℕ → List ℕ
move_left x [] = x ∷ []
move_left x (y ∷ ys) = let rest = move_left x ys in if ltb x y then x ∷ y ∷ ys else y ∷ rest

unfoldable pub sort_stripes : List ℕ → List ℕ → List ℕ
sort_stripes done [] = done
sort_stripes done (x ∷ xs) = sort_stripes (move_left x done) xs

unfoldable pub stripes_of : List PageId → List ℕ
stripes_of pids = sort_stripes [] (gather [] pids)

unfoldable pub lock_all : List ℕ → PageLockManager → Option PageLockManager
lock_all [] locks = some locks
lock_all (s ∷ stripes) locks = elim (lock s locks) [
  | none ↦ none
  | some next ↦ lock_all stripes next
]

unfoldable pub unlock_all : List ℕ → PageLockManager → Option PageLockManager
unlock_all [] locks = some locks
unlock_all (s ∷ stripes) locks = elim (unlock s locks) [
  | none ↦ none
  | some next ↦ unlock_all stripes next
]

abbrev pub lock_table : List PageId → PageLockManager → Option PageLockManager
lock_table pids locks = lock_all (stripes_of pids) locks

abbrev pub unlock_table : List PageId → PageLockManager → Option PageLockManager
unlock_table pids locks = unlock_all (stripes_of pids) locks

-- EvictUnused has nothing to do.
abbrev pub evict_unused : PageLockManager → PageLockManager × ℕ
evict_unused locks = (locks, 0)
