-- ===== src/Wal/Log.antt =====
-- server/internal/core/wal/wal.go and group_commit.go: the file is a sequence of whole records.
use mathlib.Core.Path.{subst}
use mathlib.Core.List.{append-nil, append_assoc}
use pro_labs.Common.{
  ℕ, suc, ◌-◌, ◌≡◌, ◌≤◌, refl, sym, ap, ◌∙◌, arith, Bool, true, false, not, List, [], ◌∷◌, ◌++◌,
  ◌&&◌, length, take, ltb, leb, ◌==◌, ==_iff, and_iff, if◌then◌else◌, if-cases, length-append,
  length-take, take-append, take_of_length_le,
}
use pro_labs.Wal.{
  WalRecord, Wal, Undo, undone, seek_failed, truncate_failed, Write, undo_partial_write,
  write_locked, write_record_raw, counted_tx, write_batch,
}

abbrev pub joined_records : List (List ℕ) → List ℕ
joined_records [] = []
joined_records (r ∷ rs) = r ++ joined_records rs

-- The file holds these records, and nothing else unless writes are refused.
pub record Contents (records : List (List ℕ)) (file : List ℕ) (write_err : Bool) (write_seq : ℕ)
    : Type 0 where
  pub rest : List ℕ
  pub holds_records : file ≡ joined_records records ++ rest
  pub whole : write_err ≡ false → rest ≡ []
  pub counted : write_seq ≡ length records

abbrev pub IsLog : List (List ℕ) → Wal → Type 0
IsLog records w = Contents records w.file w.write_err w.write_seq

joined_records-append :
    (rs : List (List ℕ)) (r : List ℕ) → joined_records (rs ++ (r ∷ [])) ≡ joined_records rs ++ r
joined_records-append [] r = append-nil r
joined_records-append (x ∷ rs) r =
    ap (λ (b : List ℕ). x ++ b) (joined_records-append rs r)
    ∙ sym (append_assoc x (joined_records rs) r)

take_all : (n : ℕ) (xs : List ℕ) → length (take n xs) ≡ length xs → take n xs ≡ xs
take_all n xs h = take_of_length_le n xs (omega (arith, length-take n xs, h))

no_bytes : (xs : List ℕ) → length xs ≤ 0 → Path (List ℕ) xs []
no_bytes [] h = refl
no_bytes (x ∷ xs) h = absurd (omega arith)

cut_back : (a b : List ℕ) → take (length (a ++ b) - length b) (a ++ b) ≡ a
cut_back a b =
    let n : length (a ++ b) - length b ≡ length a = omega (arith, length-append a b) in
    ap (λ (k : ℕ). take k (a ++ b)) n ∙ take-append a b

undo_partial_write-IsLog :
    (undo : Undo) (part : List ℕ) (records : List (List ℕ)) (w : Wal)
    → w.file ≡ joined_records records
    → w.write_seq ≡ length records
    → IsLog records (undo_partial_write undo (length part) (record w { file = w.file ++ part }))
undo_partial_write-IsLog undone part records w file n = record {
  rest = [];
  holds_records = cut_back w.file part ∙ file ∙ sym (append-nil (joined_records records));
  whole = λ e. refl;
  counted = n;
}
undo_partial_write-IsLog seek_failed part records w file n = record {
  rest = [];
  holds_records = cut_back w.file part ∙ file ∙ sym (append-nil (joined_records records));
  whole = λ e. refl;
  counted = n;
}
undo_partial_write-IsLog truncate_failed part records w file n = record {
  rest = part;
  holds_records = ap (λ (f : List ℕ). f ++ part) file;
  whole = λ e. absurd (cc e);
  counted = n;
}

-- A write that says it succeeded adds the record, and one that fails adds nothing to be read: what it left
-- is taken away, or all later writes are refused.
pub write_locked-IsLog :
    (call : Write) (bytes : List ℕ) (records : List (List ℕ)) (w : Wal)
    → IsLog records w
    → IsLog
        (if (write_locked call bytes w).1 then records ++ (bytes ∷ []) else records)
        (write_locked call bytes w).0
unfolding write_locked
write_locked-IsLog call bytes records w v =
    let part = take call.taken bytes in
    let after : Wal = record w { file = w.file ++ part } in
    let P : Wal × Bool → Type 0 =
      λ (r : Wal × Bool). IsLog (if r.1 then records ++ (bytes ∷ []) else records) r.0 in
    if-cases P w.write_err (λ e. v)
      (λ fine.
        let file : w.file ≡ joined_records records =
          v.holds_records
          ∙ ap (λ (x : List ℕ). joined_records records ++ x) (v.whole fine)
          ∙ append-nil (joined_records records) in
        if-cases P (not call.failed && (length part == length bytes))
          (λ good.
            let full =
              (==_iff (length part) (length bytes)).0
                ((and_iff (not call.failed) (length part == length bytes)).0 good).1 in
            record {
              rest = [];
              holds_records =
                  ap (λ (f : List ℕ). f ++ part) file
                  ∙ ap (λ (b : List ℕ). joined_records records ++ b)
                      (take_all call.taken bytes full)
                  ∙ sym (joined_records-append records bytes)
                  ∙ sym (append-nil (joined_records (records ++ (bytes ∷ []))));
              whole = λ e. refl;
              counted = omega (arith, v.counted, length-append records (bytes ∷ []));
            })
          (λ bad.
            if-cases P (ltb 0 (length part))
              (λ some_part. undo_partial_write-IsLog call.undo part records w file v.counted)
              (λ no_part. record {
                rest = part;
                holds_records = ap (λ (f : List ℕ). f ++ part) file;
                whole = λ e. no_bytes part (ground (arith, no_part));
                counted = v.counted;
              })))

counted_tx-IsLog :
    (tx_id : ℕ) (bytes : List ℕ) (records : List (List ℕ)) (r : Wal × Bool)
    → IsLog (if r.1 then records ++ (bytes ∷ []) else records) r.0
    → IsLog
        (if (counted_tx tx_id r).1 then records ++ (bytes ∷ []) else records)
        (counted_tx tx_id r).0
counted_tx-IsLog tx_id bytes records (w, false) v = v
counted_tx-IsLog tx_id bytes records (w, true) v =
    if-cases (IsLog (records ++ (bytes ∷ []))) (leb w.next_tx_id tx_id) (λ e. v) (λ e. v)

pub write_record_raw-IsLog :
    (call : Write) (rec : WalRecord) (records : List (List ℕ)) (w : Wal)
    → IsLog records w
    → IsLog
        (if (write_record_raw call rec w).1 then records ++ (rec.bytes ∷ []) else records)
        (write_record_raw call rec w).0
unfolding write_record_raw
write_record_raw-IsLog call rec records w v =
    if-cases (λ (r : Wal × Bool). IsLog (if r.1 then records ++ (rec.bytes ∷ []) else records) r.0)
      w.is_open
      (λ e.
        counted_tx-IsLog rec.tx_id rec.bytes records (write_locked call rec.bytes w)
          (write_locked-IsLog call rec.bytes records w v))
      (λ e. v)

abbrev pub bytes_of : List WalRecord → List (List ℕ)
bytes_of [] = []
bytes_of (r ∷ rs) = r.bytes ∷ bytes_of rs

-- A part of a batch, from its start on, is in the log; all of it, if the loop says so.
abbrev Flushed : List (List ℕ) → List WalRecord → Wal × Bool → Type 0
Flushed records batch r =
    (written : List WalRecord) × (lost : List WalRecord) × (batch ≡ written ++ lost)
    × IsLog (records ++ bytes_of written) r.0
    × (r.1 ≡ true → lost ≡ [])

pub write_batch-Flushed :
    (call : ℕ → Write) (batch : List WalRecord) (records : List (List ℕ)) (w : Wal)
    → IsLog records w
    → Flushed records batch (write_batch call batch w)
unfolding write_batch
write_batch-Flushed call [] records w v = (
  [],
  [],
  refl,
  subst (λ (rs : List (List ℕ)). IsLog rs w) (sym (append-nil records)) v,
  λ e. refl,
)
write_batch-Flushed call (rec ∷ batch) records w v =
    let later = λ (n : ℕ). call (suc n) in
    let r = write_record_raw (call 0) rec w in
    let first = write_record_raw-IsLog (call 0) rec records w v in
    if-cases (Flushed records (rec ∷ batch)) r.1
      (λ good.
        let v' =
          subst (λ (b : Bool). IsLog (if b then records ++ (rec.bytes ∷ []) else records) r.0) good
            first in
        let (written, lost, split, log, all) =
          write_batch-Flushed later batch (records ++ (rec.bytes ∷ [])) r.0 v' in
        (
          rec ∷ written,
          lost,
          ap (◌∷◌ rec) split,
          subst (λ (rs : List (List ℕ)). IsLog rs (write_batch later batch r.0).0)
              (append_assoc records (rec.bytes ∷ []) (bytes_of written)) log,
          all,
        ))
      (λ bad.
        let v' =
          subst (λ (b : Bool). IsLog (if b then records ++ (rec.bytes ∷ []) else records) r.0) bad
            first in
        (
          [],
          rec ∷ batch,
          refl,
          subst (λ (rs : List (List ℕ)). IsLog rs r.0) (sym (append-nil records)) v',
          λ e. absurd (cc (e, bad)),
        ))
