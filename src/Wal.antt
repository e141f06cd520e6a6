-- ===== src/Wal.antt =====
-- server/internal/core/wal/wal.go and group_commit.go: writing records to the log, and the batches of group
-- commit.
--
-- The file is its bytes, with the position at the end. What the operating system does in a call is an
-- argument: how many bytes a write takes, whether it reports an error, how the undo ends, whether a sync
-- fails. `durable` is what the file held at the last sync. Hooks and the signal to the worker are left out.
pub mod Log
pub mod Flush
mod Tests
use pro_labs.Common.{
  ℕ, suc, ◌+◌, ◌-◌, Bool, true, false, not, List, [], ◌∷◌, ◌++◌, ◌&&◌, length, take, ltb, leb, ◌==◌,
  if◌then◌else◌,
}

pub record WalRecord : Type 0 where
  pub tx_id : ℕ
  pub bytes : List ℕ

pub record Wal : Type 0 where
  pub is_open : Bool
  pub file : List ℕ
  pub write_err : Bool
  pub write_seq : ℕ
  pub synced_seq : ℕ
  pub next_tx_id : ℕ
  pub durable : List ℕ

-- The undo of a partial write.
pub data Undo : Type 0 where
  undone : Undo
  seek_failed : Undo
  truncate_failed : Undo

pub record Write : Type 0 where
  pub taken : ℕ
  pub failed : Bool
  pub undo : Undo

abbrev pub undo_partial_write : Undo → ℕ → Wal → Wal
undo_partial_write undone n w = record w { file = take (length w.file - n) w.file }
undo_partial_write seek_failed n w = record w {
  file = take (length w.file - n) w.file;
  write_err = true;
}
undo_partial_write truncate_failed n w = record w { write_err = true }

-- The first `taken` bytes are written; false is the error.
unfoldable pub write_locked : Write → List ℕ → Wal → Wal × Bool
write_locked call bytes w =
    let part = take call.taken bytes in
    let after : Wal = record w { file = w.file ++ part } in
    if w.write_err
    then (w, false)
    else if not call.failed && (length part == length bytes)
    then (record after { write_seq = w.write_seq + 1 }, true)
    else if ltb 0 (length part)
    then (undo_partial_write call.undo (length part) after, false)
    else (after, false)

abbrev pub raise_tx_id : ℕ → Wal → Wal
raise_tx_id tx_id w = if leb w.next_tx_id tx_id then record w { next_tx_id = tx_id + 1 } else w

abbrev pub counted_tx : ℕ → Wal × Bool → Wal × Bool
counted_tx tx_id (w, true) = (raise_tx_id tx_id w, true)
counted_tx tx_id (w, false) = (w, false)

unfoldable pub write_record_raw : Write → WalRecord → Wal → Wal × Bool
write_record_raw call rec w =
    if w.is_open then counted_tx rec.tx_id (write_locked call rec.bytes w) else (w, false)

abbrev pub advance_synced : ℕ → Wal → Wal
advance_synced seq w = if leb seq w.synced_seq then w else record w { synced_seq = seq }

abbrev pub sync_locked : Bool → Wal → Wal × Bool
sync_locked sync_failed w =
    if sync_failed
    then (w, false)
    else (advance_synced w.write_seq (record w { durable = w.file }), true)

pub record GroupCommit : Type 0 where
  pub wal : Wal
  pub pending : List WalRecord
  pub batch_size : ℕ

-- True asks the worker for a flush. The call never gives an error.
abbrev pub append_batch : WalRecord → GroupCommit → GroupCommit × Bool
append_batch rec gc =
    let pending = gc.pending ++ (rec ∷ []) in
    (record gc { pending = pending }, leb gc.batch_size (length pending))

-- The loop over the batch; `call` says how the first write of it ends, the second, and so on. A failed
-- write ends it.
unfoldable pub write_batch : (ℕ → Write) → List WalRecord → Wal → Wal × Bool
write_batch call [] w = (w, true)
write_batch call (rec ∷ batch) w =
    let r = write_record_raw (call 0) rec w in
    let rest = write_batch (λ n. call (suc n)) batch r.0 in if r.1 then rest else r

unfoldable pub do_flush : (ℕ → Write) → Bool → GroupCommit → GroupCommit
do_flush call sync_failed gc =
    let r = write_batch call gc.pending gc.wal in
    if length gc.pending == 0
    then gc
    else record gc { pending = []; wal = if r.1 then (sync_locked sync_failed r.0).0 else r.0 }
