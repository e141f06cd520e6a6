-- ===== src/Wal/Flush.antt =====
-- server/internal/core/wal/group_commit.go: what a flush writes, and what it loses.
use mathlib.Core.Path.{subst}
use mathlib.Core.List.{append-nil}
use pro_labs.Common.{
  ℕ, suc, ◌≡◌, refl, sym, ap, ◌∙◌, arith, Bool, true, false, not, List, [], ◌∷◌, ◌++◌, ◌&&◌, length,
  take, ltb, leb, ◌==◌, and_iff, if◌then◌else◌, if-cases,
}
use pro_labs.Wal.{
  WalRecord, Wal, Write, write_locked, write_record_raw, counted_tx, write_batch, sync_locked,
  GroupCommit, do_flush,
}
use pro_labs.Wal.Log.{IsLog, bytes_of, write_batch-Flushed, write_record_raw-IsLog}

sync_locked-IsLog :
    (sync_failed : Bool) (records : List (List ℕ)) (w : Wal)
    → IsLog records w
    → IsLog records (sync_locked sync_failed w).0
sync_locked-IsLog true records w v = v
sync_locked-IsLog false records w v =
    if-cases (IsLog records) (leb w.write_seq w.synced_seq) (λ e. v) (λ e. v)

none_pending :
    (batch : List WalRecord) → (length batch == 0) ≡ true → Path (List WalRecord) batch []
none_pending [] e = refl
none_pending (r ∷ batch) e = absurd (ground (arith, e))

-- From a log of whole records on, and however the writes and the sync of a flush end: the log grows
-- by the records at the start of the batch, whole and in order, with nothing behind them unless all
-- further writes are refused; and no record stays pending.
pub do_flush-IsLog :
    (call : ℕ → Write) (sync_failed : Bool) (records : List (List ℕ)) (gc : GroupCommit)
    → IsLog records gc.wal
    → (written : List WalRecord) × (lost : List WalRecord) × (gc.pending ≡ written ++ lost)
      × IsLog (records ++ bytes_of written) (do_flush call sync_failed gc).wal
      × ((do_flush call sync_failed gc).pending ≡ [])
unfolding do_flush
do_flush-IsLog call sync_failed records gc v =
    let r = write_batch call gc.pending gc.wal in
    let (written, lost, split, log, all) = write_batch-Flushed call gc.pending records gc.wal v in
    if-cases
      (λ (g : GroupCommit).
        (written : List WalRecord) × (lost : List WalRecord) × (gc.pending ≡ written ++ lost)
        × IsLog (records ++ bytes_of written) g.wal
        × (g.pending ≡ []))
      (length gc.pending == 0)
      (λ idle. (
        [],
        [],
        none_pending gc.pending idle,
        subst (λ (rs : List (List ℕ)). IsLog rs gc.wal) (sym (append-nil records)) v,
        none_pending gc.pending idle,
      ))
      (λ busy. (
        written,
        lost,
        split,
        if-cases (IsLog (records ++ bytes_of written)) r.1
            (λ e. sync_locked-IsLog sync_failed (records ++ bytes_of written) r.0 log) (λ e. log),
        refl,
      ))

write_locked_failed :
    (call : Write) (bytes : List ℕ) (w : Wal)
    → call.failed ≡ true
    → (write_locked call bytes w).1 ≡ false
unfolding write_locked
write_locked_failed call bytes w h =
    let part = take call.taken bytes in
    let P : Wal × Bool → Type 0 = λ (r : Wal × Bool). r.1 ≡ false in
    if-cases P w.write_err (λ e. refl)
      (λ e.
        if-cases P (not call.failed && (length part == length bytes))
          (λ good. absurd (
            cc (
              sym (ap not h)
              ∙ ((and_iff (not call.failed) (length part == length bytes)).0 good).0)))
          (λ bad. if-cases P (ltb 0 (length part)) (λ k. refl) (λ k. refl)))

counted_tx_failed : (tx_id : ℕ) (r : Wal × Bool) → r.1 ≡ false → (counted_tx tx_id r).1 ≡ false
counted_tx_failed tx_id (w, true) h = h
counted_tx_failed tx_id (w, false) h = h

write_record_raw_failed :
    (call : Write) (rec : WalRecord) (w : Wal)
    → call.failed ≡ true
    → (write_record_raw call rec w).1 ≡ false
unfolding write_record_raw
write_record_raw_failed call rec w h =
    if-cases (λ (r : Wal × Bool). r.1 ≡ false) w.is_open
      (λ e.
        counted_tx_failed rec.tx_id (write_locked call rec.bytes w)
          (write_locked_failed call rec.bytes w h))
      (λ e. refl)

-- If the first write of a flush fails, the log holds the records that it held before and no others,
-- and no record of the batch stays pending.
pub do_flush_lost :
    (call : ℕ → Write) (sync_failed : Bool) (records : List (List ℕ)) (gc : GroupCommit)
    (rec : WalRecord) (batch : List WalRecord)
    → IsLog records gc.wal
    → gc.pending ≡ rec ∷ batch
    → (call 0).failed ≡ true
    → IsLog records (do_flush call sync_failed gc).wal
      × ((do_flush call sync_failed gc).pending ≡ [])
unfolding do_flush write_batch
do_flush_lost call sync_failed records gc rec batch v e h =
    let one = write_record_raw (call 0) rec gc.wal in
    let failed : one.1 ≡ false = write_record_raw_failed (call 0) rec gc.wal h in
    let log : IsLog records one.0 =
      subst (λ (b : Bool). IsLog (if b then records ++ (rec.bytes ∷ []) else records) one.0) failed
        (write_record_raw-IsLog (call 0) rec records gc.wal v) in
    let r : Wal × Bool = write_batch call gc.pending gc.wal in
    let stopped : r ≡ one =
      ap (λ (b : List WalRecord). write_batch call b gc.wal) e
      ∙ ap (λ (b : Bool). if b then write_batch (λ n. call (suc n)) batch one.0 else one) failed in
    let log_r : IsLog records r.0 =
      subst (λ (q : Wal × Bool). IsLog records q.0) (sym stopped) log in
    if-cases (λ (g : GroupCommit). IsLog records g.wal × (g.pending ≡ [])) (length gc.pending == 0)
      (λ idle. (v, none_pending gc.pending idle))
      (λ busy. (
        if-cases (IsLog records) r.1 (λ k. sync_locked-IsLog sync_failed records r.0 log_r)
            (λ k. log_r),
        refl,
      ))
