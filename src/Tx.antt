-- ===== src/Tx.antt =====
-- server/internal/core/txmanager/manager.go: the buffer of a transaction, with savepoints and spill.
--
-- The file of spilled operations is the list of its bytes. Its codec (EncodePendingOp, DecodePendingOp,
-- or encoding/json) is a parameter. `disk` says for each call whether the file system does what it is
-- asked; the two errors of a failed call are one. After a failed write the content of the file does not
-- matter, since ReadOps gives the error then. `has_dir` says whether a directory for spill files is set,
-- which does not change during a transaction.
pub mod Lines
pub mod Holds
pub mod Spill
pub mod Savepoints
pub mod Expr
pub mod Wire
pub mod Kept
mod Tests
use Prim.Native.String.{String}
use text.Mathlib.Text.{◌==◌ as str_eq}
use pro_labs.Common.{
  ℕ, zero, suc, ◌+◌, Bool, true, false, Option, none, some, List, [], ◌∷◌, ◌++◌, ◌&&◌, not, length,
  take, leb, ltb, ◌==◌, if◌then◌else◌, find, put, remove,
}
use Lines.{Codec, newline, write_ops, read_lines}

-- A call that sets spillErr, or not.
pub record Buffer (Op : Type 0) : Type 0 where
  pub ops : List Op
  pub op_counter : ℕ
  pub savepoints : List (String × ℕ)
  pub savepoint_order : List String
  pub spilled : Bool
  pub file : List ℕ
  pub spill_err : Bool

pub data Result (Op : Type 0) : Type 0 where
  done : Buffer Op → Result Op
  unknown_savepoint : Result Op
  failed : Buffer Op → Result Op

module _ {Op : Type 0} (codec : Codec Op) where
  pub new_buffer : Buffer Op
  new_buffer = record {
    ops = [];
    op_counter = 0;
    savepoints = [];
    savepoint_order = [];
    spilled = false;
    file = [];
    spill_err = false;
  }

  -- What writeOpsToFile leaves in the file, if it succeeds.
  abbrev pub write_file : Bool → List Op → Option (List ℕ)
  write_file disk ops = if disk then write_ops codec ops else none

  pub spilled_to : Option (List ℕ) → Buffer Op → Buffer Op
  spilled_to none b = record b { spill_err = true }
  spilled_to (some file) b = record b { spilled = true; file = file; ops = [] }

  pub spill_to_disk : Bool → Buffer Op → Buffer Op
  spill_to_disk disk b = spilled_to (write_file disk b.ops) b

  pub appended : Option (List ℕ) → Buffer Op → Buffer Op
  appended none b = record b { spill_err = true }
  appended (some line) b = record b { file = b.file ++ (line ++ (newline ∷ [])) }

  pub append_op_to_file : Bool → Op → Buffer Op → Buffer Op
  append_op_to_file disk op b = appended (if disk then codec.encode op else none) b

  pub add_op : ℕ → Bool → Bool → Op → Buffer Op → Buffer Op
  add_op spill_threshold has_dir disk op b =
      let b1 = record b { op_counter = b.op_counter + 1 } in
      let b2 = record b1 { ops = b1.ops ++ (op ∷ []) } in
      if b.spilled
      then append_op_to_file disk op b1
      else if leb spill_threshold (length b2.ops) && has_dir
      then spill_to_disk disk b2
      else b2

  pub read_ops : Bool → Buffer Op → Option (List Op)
  read_ops disk b =
      if b.spill_err
      then none
      else if not b.spilled
      then some b.ops
      else if disk
      then read_lines codec [] b.file
      else none

  -- A name that is new is the last of the order; one that is there keeps its place.
  abbrev pub order_of : Option ℕ → String → List String → List String
  order_of none name order = order ++ (name ∷ [])
  order_of (some n) name order = order

  pub savepoint : String → Buffer Op → Buffer Op
  savepoint name b = record b {
    savepoints = put name b.op_counter b.savepoints;
    savepoint_order = order_of (find name b.savepoints) name b.savepoint_order;
  }

  abbrev pub remove_name : String → List String → List String
  remove_name name [] = []
  remove_name name (n ∷ names) =
      let rest = remove_name name names in if str_eq n name then names else n ∷ rest

  pub release_savepoint : String → Buffer Op → Buffer Op × Bool
  release_savepoint name b = elim (find name b.savepoints) [
    | none ↦ (b, false)
    | some n ↦ (
      record b {
        savepoints = remove name b.savepoints;
        savepoint_order = remove_name name b.savepoint_order;
      },
      true,
    )
  ]

  -- The names up to `name`, and those behind it, if it is there.
  abbrev pub up_to : String → List String → List String
  up_to name [] = []
  up_to name (n ∷ names) = let rest = up_to name names in if str_eq n name then n ∷ [] else n ∷ rest

  abbrev pub behind : String → List String → List String
  behind name [] = []
  behind name (n ∷ names) = let rest = behind name names in if str_eq n name then names else rest

  abbrev pub remove_all : List String → List (String × ℕ) → List (String × ℕ)
  remove_all [] m = m
  remove_all (n ∷ names) m = remove_all names (remove n m)

  -- The end of RollbackToSavepoint, behind the rewrite of the buffer.
  pub forget_later : String → ℕ → Buffer Op → Buffer Op
  forget_later name n b = record b {
    op_counter = n;
    savepoints = remove_all (behind name b.savepoint_order) b.savepoints;
    savepoint_order = up_to name b.savepoint_order;
  }

  pub rewritten : String → ℕ → Buffer Op → Option (List ℕ) → Result Op
  rewritten name n b none = failed (record b { spill_err = true })
  rewritten name n b (some file) = done (forget_later name n (record b { file = file }))

  pub truncate : Bool → String → ℕ → List Op → Buffer Op → Result Op
  truncate disk name n kept b =
      if b.spilled
      then (if length kept == 0
          then done (forget_later name n (record b { spilled = false; file = []; ops = [] }))
          else rewritten name n b (write_file disk kept))
      else done (forget_later name n (record b { ops = kept }))

  pub cut : Bool → String → ℕ → Option (List Op) → Buffer Op → Result Op
  cut disk name n none b = failed b
  cut disk name n (some ops) b =
      let m = if ltb (length ops) n then length ops else n in truncate disk name m (take m ops) b

  pub from_marker : Bool → String → Option ℕ → Buffer Op → Result Op
  from_marker disk name none b = unknown_savepoint
  from_marker disk name (some n) b = cut disk name n (read_ops disk b) b

  pub rollback_to_savepoint : Bool → String → Buffer Op → Result Op
  rollback_to_savepoint disk name b = from_marker disk name (find name b.savepoints) b
