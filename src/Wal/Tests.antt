-- ===== src/Wal/Tests.antt =====
-- server/internal/core/wal/wal.go and group_commit.go: runs on a short log, and the theorems at them.
use pro_labs.Common.{ℕ, ◌≡◌, refl, true, false, List, [], ◌∷◌, ◌++◌}
use pro_labs.Wal.{
  WalRecord, Wal, Write, undone, truncate_failed, GroupCommit, write_locked, write_record_raw,
  write_batch, append_batch, do_flush,
}
use pro_labs.Wal.Log.{IsLog, bytes_of}
use pro_labs.Wal.Flush.{do_flush-IsLog, do_flush_lost}

abbrev one : WalRecord
one = record { tx_id = 7; bytes = 1 ∷ 1 ∷ [] }

abbrev two : WalRecord
two = record { tx_id = 9; bytes = 2 ∷ 2 ∷ 2 ∷ [] }

abbrev log : Wal
log = record {
  is_open = true;
  file = 5 ∷ 5 ∷ [];
  write_err = false;
  write_seq = 1;
  synced_seq = 1;
  next_tx_id = 5;
  durable = 5 ∷ 5 ∷ [];
}

log-IsLog : IsLog ((5 ∷ 5 ∷ []) ∷ []) log
log-IsLog = record { rest = []; holds_records = refl; whole = λ e. refl; counted = refl }

abbrev queue : GroupCommit
queue =
    (append_batch two (append_batch one (record { wal = log; pending = []; batch_size = 2 })).0).0

abbrev good : ℕ → Write
good n = record { taken = 9; failed = false; undo = undone }

-- One byte is written, and taken away again.
abbrev short : ℕ → Write
short n = record { taken = 1; failed = true; undo = undone }

-- One byte is written and stays.
abbrev torn : ℕ → Write
torn n = record { taken = 1; failed = true; undo = truncate_failed }

do_flush_runs :
    ((do_flush good false queue).wal.durable ≡ 5 ∷ 5 ∷ 1 ∷ 1 ∷ 2 ∷ 2 ∷ 2 ∷ [])
    × ((do_flush good false queue).wal.next_tx_id ≡ 10)
    × ((do_flush short false queue).wal.file ≡ 5 ∷ 5 ∷ [])
    × ((do_flush torn false queue).wal.file ≡ 5 ∷ 5 ∷ 1 ∷ [])
    × ((do_flush torn false queue).wal.write_err ≡ true)
unfolding do_flush write_batch write_record_raw write_locked
do_flush_runs = (refl, refl, refl, refl, refl)

do_flush-IsLog_example :
    (written : List WalRecord) × (lost : List WalRecord) × (queue.pending ≡ written ++ lost)
    × IsLog (((5 ∷ 5 ∷ []) ∷ []) ++ bytes_of written) (do_flush good false queue).wal
    × ((do_flush good false queue).pending ≡ [])
do_flush-IsLog_example = do_flush-IsLog good false ((5 ∷ 5 ∷ []) ∷ []) queue log-IsLog

do_flush_lost_example :
    IsLog ((5 ∷ 5 ∷ []) ∷ []) (do_flush short false queue).wal
    × ((do_flush short false queue).pending ≡ [])
do_flush_lost_example =
    do_flush_lost short false ((5 ∷ 5 ∷ []) ∷ []) queue one (two ∷ []) log-IsLog refl refl
