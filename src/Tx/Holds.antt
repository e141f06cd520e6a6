-- ===== src/Tx/Holds.antt =====
-- server/internal/core/txmanager/manager.go: the operations that a buffer holds, and ReadOps.
use mathlib.Core.Path.{subst}
use pro_labs.Common.{
  ℕ, ◌≡◌, inl, inr, refl, ap, Bool, true, false, Option, none, some, List, [], ◌∷◌, ◌++◌, ◌&&◌, map,
  All, length, leb, if◌then◌else◌, Bool-cases,
}
use pro_labs.Tx.Lines.{Codec, IsWired, write_ops, read_lines-write_ops}
use pro_labs.Tx.{Buffer, spilled_to, spill_to_disk, appended, append_op_to_file, add_op, read_ops}

module _ {Op : Type 0} (codec : Codec Op) where
  -- Where the operations are.
  abbrev pub Stored : Bool → List Op → List ℕ → List Op → Type 0
  Stored false ops file l = ops ≡ l
  Stored true ops file l = write_ops codec l ≡ some file

  -- The buffer holds these operations, and no write has failed.
  pub record Holds (b : Buffer Op) (l : List Op) : Type 0 where
    pub sound : b.spill_err ≡ false
    pub count : b.op_counter ≡ length l
    pub stored : Stored b.spilled b.ops b.file l

  -- What ReadOps returns of a list of operations.
  abbrev pub kept : Bool → (Op → Op) → List Op → List Op
  kept spilled wire l = if spilled then map wire l else l

  -- ReadOps returns the operations that a buffer holds, if the file system reads its file; once
  -- spilled, it returns what the codec keeps of them.
  pub read_ops-Holds :
      (wire : Op → Op) (b : Buffer Op) (l : List Op)
      → All (IsWired codec wire) l
      → Holds b l
      → read_ops codec true b ≡ some (kept b.spilled wire l)
  unfolding read_ops
  read_ops-Holds wire b l c h = elim (Bool-cases b.spilled) [
    | inl there ↦
        let w : write_ops codec l ≡ some b.file =
          subst (λ x. Stored x b.ops b.file l) there h.stored in
        rw (h.sound, there) (read_lines-write_ops codec wire l b.file c w)
    | inr here ↦
        let w : b.ops ≡ l = subst (λ x. Stored x b.ops b.file l) here h.stored in
        rw (h.sound, here) (ap some w)
  ]

  spilled_to-sticky :
      (x : Option (List ℕ)) (b : Buffer Op)
      → b.spill_err ≡ true
      → (spilled_to codec x b).spill_err ≡ true
  unfolding spilled_to
  spilled_to-sticky none b h = refl
  spilled_to-sticky (some file) b h = h

  appended-sticky :
      (x : Option (List ℕ)) (b : Buffer Op)
      → b.spill_err ≡ true
      → (appended codec x b).spill_err ≡ true
  unfolding appended
  appended-sticky none b h = refl
  appended-sticky (some line) b h = h

  pub add_op-sticky :
      (spill_threshold : ℕ) (has_dir disk : Bool) (op : Op) (b : Buffer Op)
      → b.spill_err ≡ true
      → (add_op codec spill_threshold has_dir disk op b).spill_err ≡ true
  unfolding add_op append_op_to_file spill_to_disk
  add_op-sticky spill_threshold has_dir disk op b h = elim (Bool-cases b.spilled) [
    | inl there ↦ rw there (appended-sticky _ _ h)
    | inr here ↦
        let full = leb spill_threshold (length (b.ops ++ (op ∷ []))) && has_dir in
        elim (Bool-cases full) [
          | inl yes1 ↦ rw (here, yes1) (spilled_to-sticky _ _ h)
          | inr no1 ↦ rw (here, no1) h
        ]
  ]

  -- A write that failed is not forgotten: ReadOps gives the error behind AddOp too.
  pub read_ops-add_op_failed :
      (spill_threshold : ℕ) (has_dir disk reads : Bool) (op : Op) (b : Buffer Op)
      → b.spill_err ≡ true
      → read_ops codec reads (add_op codec spill_threshold has_dir disk op b) ≡ none
  unfolding read_ops
  read_ops-add_op_failed spill_threshold has_dir disk reads op b h =
      rw (add_op-sticky spill_threshold has_dir disk op b h) refl
