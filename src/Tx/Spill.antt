-- ===== src/Tx/Spill.antt =====
-- server/internal/core/txmanager/manager.go: a transaction's buffer loses no operation, spilled or not.
use mathlib.Core.Path.{subst}
use pro_labs.Common.{
  ℕ, ◌+◌, ◌≡◌, ◌⊎◌, inl, inr, refl, sym, ◌∙◌, ap, Bool, true, false, Option, none, some, List, [],
  ◌∷◌, ◌++◌, ◌&&◌, ◌||◌, not, length, leb, if◌then◌else◌, arith, Bool-cases, length-append,
}
use pro_labs.Tx.Lines.{
  Codec, newline, write_ops, write_ops-append, encodable, is_some, is_some-write_ops,
  encodable-append,
}
use pro_labs.Tx.{Buffer, spilled_to, spill_to_disk, appended, append_op_to_file, add_op}
use pro_labs.Tx.Holds.{Stored, Holds}

module _ {Op : Type 0} (codec : Codec Op) where
  -- AddOp has to write: the buffer is in its file already, or `all` reach the threshold.
  abbrev pub must_write : ℕ → Bool → Bool → List Op → Bool
  must_write spill_threshold has_dir spilled all =
      spilled || (leb spill_threshold (length all) && has_dir)

  abbrev pub write_fails : ℕ → Bool → Bool → Bool → List Op → Bool
  write_fails spill_threshold has_dir disk spilled all =
      must_write spill_threshold has_dir spilled all && not (disk && encodable codec all)

  -- The write fails and the error is set, or the buffer holds these operations and is in its file
  -- just if it had to be written.
  abbrev pub Outcome : Bool → Bool → Buffer Op → List Op → Type 0
  Outcome fails writes b all =
      ((fails ≡ true) × (b.spill_err ≡ true))
      ⊎ ((fails ≡ false) × Holds codec b all × (b.spilled ≡ writes))

  spilled_to-Outcome :
      (disk : Bool) (x : Option (List ℕ)) (b : Buffer Op)
      → Holds codec b b.ops
      → write_ops codec b.ops ≡ x
      → Outcome (not (disk && is_some x)) true (spilled_to codec (if disk then x else none) b) b.ops
  unfolding spilled_to
  spilled_to-Outcome false x b h w = inl (refl, refl)
  spilled_to-Outcome true none b h w = inl (refl, refl)
  spilled_to-Outcome true (some file) b h w =
      inr (refl, record { sound = h.sound; count = h.count; stored = w }, refl)

  appended-Outcome :
      (disk : Bool) (x : Option (List ℕ)) (b : Buffer Op) (l : List Op) (op : Op)
      → b.spill_err ≡ false
      → b.spilled ≡ true
      → b.op_counter ≡ length (l ++ (op ∷ []))
      → write_ops codec l ≡ some b.file
      → codec.encode op ≡ x
      → Outcome
          (not (disk && is_some x))
          true
          (appended codec (if disk then x else none) b)
          (l ++ (op ∷ []))
  unfolding appended
  appended-Outcome false x b l op sound there count w k = inl (refl, refl)
  appended-Outcome true none b l op sound there count w k = inl (refl, refl)
  appended-Outcome true (some line) b l op sound there count w k = inr (
    refl,
    record {
      sound = sound;
      count = count;
      stored =
          subst (λ y. Stored codec y b.ops (b.file ++ (line ++ (newline ∷ []))) (l ++ (op ∷ [])))
            (sym there) (write_ops-append codec l op b.file line w k);
    },
    there,
  )

  -- AddOp of a buffer that is in its file.
  append_op_to_file-Outcome :
      (disk : Bool) (op : Op) (b : Buffer Op) (l : List Op)
      → Holds codec b l
      → b.spilled ≡ true
      → Outcome
          (not (disk && encodable codec (l ++ (op ∷ []))))
          true
          (append_op_to_file codec disk op (record b { op_counter = b.op_counter + 1 }))
          (l ++ (op ∷ []))
  unfolding append_op_to_file
  append_op_to_file-Outcome disk op b l h there =
      let w : write_ops codec l ≡ some b.file =
        subst (λ x. Stored codec x b.ops b.file l) there h.stored in
      let all_of_l = sym (is_some-write_ops codec l) ∙ ap is_some w in
      subst
        (λ e.
          Outcome (not (disk && e)) true
            (append_op_to_file codec disk op (record b { op_counter = b.op_counter + 1 }))
            (l ++ (op ∷ [])))
        (sym (encodable-append codec l op all_of_l))
        (appended-Outcome disk (codec.encode op) (record b { op_counter = b.op_counter + 1 }) l op
          h.sound there (omega (arith, h.count, length-append l (op ∷ []))) w refl)

  -- AddOp of a buffer in memory.
  memory-Outcome :
      (spill_threshold : ℕ) (has_dir disk : Bool) (b : Buffer Op)
      → Holds codec b b.ops
      → b.spilled ≡ false
      → Outcome
          (write_fails spill_threshold has_dir disk false b.ops)
          (must_write spill_threshold has_dir false b.ops)
          (if leb spill_threshold (length b.ops) && has_dir then spill_to_disk codec disk b else b)
          b.ops
  unfolding spill_to_disk
  memory-Outcome spill_threshold has_dir disk b h here =
      elim (Bool-cases (leb spill_threshold (length b.ops) && has_dir)) [
        | inl full ↦ rw full (
            subst (λ e. Outcome (not (disk && e)) true (spill_to_disk codec disk b) b.ops)
              (is_some-write_ops codec b.ops)
              (spilled_to-Outcome disk (write_ops codec b.ops) b h refl))
        | inr room ↦ rw room (inr (refl, h, here))
      ]

  -- AddOp appends its operation to those that the buffer holds, in memory, while spilling and in the
  -- file alike, and sets no error, unless a write is due and fails, for the file system or because
  -- the codec has no bytes for an operation; then it sets the error. The buffer is in its file behind it
  -- just if a write was due.
  pub add_op-Outcome :
      (spill_threshold : ℕ) (has_dir disk : Bool) (op : Op) (b : Buffer Op) (l : List Op)
      → Holds codec b l
      → Outcome
          (write_fails spill_threshold has_dir disk b.spilled (l ++ (op ∷ [])))
          (must_write spill_threshold has_dir b.spilled (l ++ (op ∷ [])))
          (add_op codec spill_threshold has_dir disk op b)
          (l ++ (op ∷ []))
  unfolding add_op
  add_op-Outcome spill_threshold has_dir disk op b l h =
      let all : List Op = l ++ (op ∷ []) in
      let b1 : Buffer Op = record b { op_counter = b.op_counter + 1 } in
      let b2 : Buffer Op = record b1 { ops = b.ops ++ (op ∷ []) } in
      let full = leb spill_threshold (length b2.ops) && has_dir in
      let memory : Buffer Op = if full then spill_to_disk codec disk b2 else b2 in
      let P : Bool → Type 0 = λ (s : Bool).
        Outcome (write_fails spill_threshold has_dir disk s all)
          (must_write spill_threshold has_dir s all)
          (if s then append_op_to_file codec disk op b1 else memory) all in
      elim (Bool-cases b.spilled) [
        | inl there ↦ subst P (sym there) (append_op_to_file-Outcome disk op b l h there)
        | inr here ↦
            let w : b.ops ≡ l = subst (λ x. Stored codec x b.ops b.file l) here h.stored in
            let now : Holds codec b2 b2.ops = record {
              sound = h.sound;
              count = omega (arith, h.count, length-append b.ops (op ∷ []), ap length w);
              stored = subst (λ x. Stored codec x b2.ops b.file b2.ops) (sym here) refl;
            } in
            subst P (sym here) (
              subst
                (λ (x : List Op).
                  Outcome (write_fails spill_threshold has_dir disk false x)
                    (must_write spill_threshold has_dir false x) memory x)
                (ap (λ (x : List Op). x ++ (op ∷ [])) w)
                (memory-Outcome spill_threshold has_dir disk b2 now here))
      ]

  -- A write has failed, or the buffer holds these operations.
  abbrev pub Kept : Buffer Op → List Op → Type 0
  Kept b l = (b.spill_err ≡ true) ⊎ Holds codec b l

  pub Outcome-Kept :
      (fails writes : Bool) (b : Buffer Op) (l : List Op) → Outcome fails writes b l → Kept b l
  Outcome-Kept fails writes b l (inl (bad, e)) = inl e
  Outcome-Kept fails writes b l (inr (good, h, e)) = inr h
