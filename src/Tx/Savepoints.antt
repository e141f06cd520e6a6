-- ===== src/Tx/Savepoints.antt =====
-- server/internal/core/txmanager/manager.go: ROLLBACK TO gives back the operations at the savepoint.
use Prim.Native.String.{String}
use mathlib.Core.List.{append-nil, append_assoc}
use mathlib.Core.Path.{subst}
use pro_labs.Common.{
  ℕ, suc, ◌≤◌, ◌≡◌, inl, inr, refl, sym, ◌∙◌, ap, Bool, true, false, Option, none, some, List, [],
  ◌∷◌, ◌++◌, map, ◌==◌, length, take, leb, ◌&&◌, ltb, arith, if-cases, length-append, length-take,
  find, All, find-put,
}
use pro_labs.Tx.Lines.{Codec, IsWired, write_ops, write_ops-take, write_ops-wire}
use pro_labs.Tx.{
  Buffer, Result, done, unknown_savepoint, failed, spilled_to, spill_to_disk, appended,
  append_op_to_file, add_op, savepoint, rollback_to_savepoint, from_marker, cut, truncate,
  rewritten, forget_later,
}
use pro_labs.Tx.Holds.{Stored, Holds, kept, read_ops-Holds, add_op-sticky}
use pro_labs.Tx.Spill.{Kept, add_op-Outcome, Outcome-Kept}

empty : {A : Type 0} (xs : List A) → (length xs == 0) ≡ true → [] ≡ xs
empty [] h = refl
empty (x ∷ xs) h = absurd (ground arith)

take-append : {A : Type 0} (xs ys : List A) → take (length xs) (xs ++ ys) ≡ xs
take-append [] ys = refl
take-append (x ∷ xs) ys = ap (λ (l : List _). x ∷ l) (take-append xs ys)

length-map : {A : Type 0} (f : A → A) (xs : List A) → length (map f xs) ≡ length xs
length-map f [] = refl
length-map f (x ∷ xs) = ap suc (length-map f xs)

module _ {Op : Type 0} (codec : Codec Op) where
  -- The call succeeds with a buffer of which `P` holds.
  abbrev pub Succeeds : (Buffer Op → Type 0) → Result Op → Type 0
  Succeeds P (done b) = P b
  Succeeds P unknown_savepoint = ⊥
  Succeeds P (failed b) = ⊥

  rewritten-Holds :
      (name : String) (n : ℕ) (b : Buffer Op) (kept : List Op) (file : List ℕ)
      → b.spill_err ≡ false
      → b.spilled ≡ true
      → n ≡ length kept
      → write_ops codec kept ≡ some file
      → Succeeds (λ c. Holds codec c kept) (rewritten codec name n b (write_ops codec kept))
  unfolding rewritten forget_later
  rewritten-Holds name n b kept file sound there count w = rw w (record {
    sound = sound;
    count = count;
    stored = subst (λ x. Stored codec x b.ops file kept) (sym there) w;
  })

  truncate-Holds :
      (name : String) (n : ℕ) (l : List Op) (b : Buffer Op)
      → b.spill_err ≡ false
      → (b.spilled ≡ true → (file : List ℕ) × (write_ops codec l ≡ some file))
      → n ≤ length l
      → Succeeds (λ c. Holds codec c (take n l)) (truncate codec true name n (take n l) b)
  unfolding truncate forget_later
  truncate-Holds name n l b sound writes below =
      let count : n ≡ length (take n l) = omega (arith, length-take n l) in
      if-cases (Succeeds (λ c. Holds codec c (take n l))) b.spilled
        (λ there.
          if-cases (Succeeds (λ c. Holds codec c (take n l))) (length (take n l) == 0)
            (λ nothing. record { sound = sound; count = count; stored = empty (take n l) nothing })
            (λ something.
              let (all, w) = writes there in
              let (file, k) = write_ops-take codec n l all w in
              rewritten-Holds name n b (take n l) file sound there count k))
        (λ here. record {
          sound = sound;
          count = count;
          stored = subst (λ x. Stored codec x (take n l) b.file (take n l)) (sym here) refl;
        })

  length-kept :
      (spilled : Bool) (wire : Op → Op) (l : List Op)
      → length (kept codec spilled wire l) ≡ length l
  length-kept true wire l = length-map wire l
  length-kept false wire l = refl

  -- What is kept of the operations of a spilled buffer can be written.
  kept-writes :
      (wire : Op → Op) (b : Buffer Op) (l : List Op)
      → All (IsWired codec wire) l
      → Holds codec b l
      → b.spilled ≡ true
      → (file : List ℕ) × (write_ops codec (kept codec b.spilled wire l) ≡ some file)
  kept-writes wire b l c h there =
      let w : write_ops codec l ≡ some b.file =
        subst (λ x. Stored codec x b.ops b.file l) there h.stored in
      subst (λ s. (file : List ℕ) × (write_ops codec (kept codec s wire l) ≡ some file)) (sym there)
        (write_ops-wire codec wire l b.file c w)

  -- ROLLBACK TO a savepoint keeps of what ReadOps returns the operations before its marker, and no
  -- other, spilled or not, if the file system works.
  pub rollback_to_savepoint-Holds :
      (wire : Op → Op) (name : String) (n : ℕ) (b : Buffer Op) (l : List Op)
      → All (IsWired codec wire) l
      → Holds codec b l
      → find name b.savepoints ≡ some n
      → n ≤ length l
      → Succeeds
          (λ c. Holds codec c (take n (kept codec b.spilled wire l)))
          (rollback_to_savepoint codec true name b)
  unfolding rollback_to_savepoint from_marker cut
  rollback_to_savepoint-Holds wire name n b l c h e below =
      let all = kept codec b.spilled wire l in
      let size : length all ≡ length l = length-kept b.spilled wire l in
      let few : ltb (length all) n ≡ false = ground (arith, size) in
      rw (e, read_ops-Holds codec wire b l c h, few)
        (truncate-Holds name n all b h.sound (kept-writes wire b l c h) (omega (arith, size)))

  appended-savepoints :
      (x : Option (List ℕ)) (b : Buffer Op) → (appended codec x b).savepoints ≡ b.savepoints
  unfolding appended
  appended-savepoints none b = refl
  appended-savepoints (some line) b = refl

  spilled_to-savepoints :
      (x : Option (List ℕ)) (b : Buffer Op) → (spilled_to codec x b).savepoints ≡ b.savepoints
  unfolding spilled_to
  spilled_to-savepoints none b = refl
  spilled_to-savepoints (some file) b = refl

  add_op-savepoints :
      (spill_threshold : ℕ) (has_dir disk : Bool) (op : Op) (b : Buffer Op)
      → (add_op codec spill_threshold has_dir disk op b).savepoints ≡ b.savepoints
  unfolding add_op append_op_to_file spill_to_disk
  add_op-savepoints spill_threshold has_dir disk op b =
      let Same = λ (c : Buffer Op). c.savepoints ≡ b.savepoints in
      if-cases Same b.spilled (λ there. appended-savepoints _ _)
        (λ here.
          if-cases Same (leb spill_threshold (length (b.ops ++ (op ∷ []))) && has_dir)
            (λ full. spilled_to-savepoints _ _) (λ room. refl))

  -- AddOp for each of some operations, the file system working or not.
  abbrev pub add_all : ℕ → Bool → List (Op × Bool) → Buffer Op → Buffer Op
  add_all spill_threshold has_dir [] b = b
  add_all spill_threshold has_dir ((op, disk) ∷ ops) b =
      add_all spill_threshold has_dir ops (add_op codec spill_threshold has_dir disk op b)

  add_all-savepoints :
      (spill_threshold : ℕ) (has_dir : Bool) (ops : List (Op × Bool)) (b : Buffer Op)
      → (add_all spill_threshold has_dir ops b).savepoints ≡ b.savepoints
  add_all-savepoints spill_threshold has_dir [] b = refl
  add_all-savepoints spill_threshold has_dir ((op, disk) ∷ ops) b =
      add_all-savepoints spill_threshold has_dir ops _
      ∙ add_op-savepoints spill_threshold has_dir disk op b

  next-Kept :
      (spill_threshold : ℕ) (has_dir disk : Bool) (op : Op) (b : Buffer Op) (l : List Op)
      → Kept codec b l
      → Kept codec (add_op codec spill_threshold has_dir disk op b) (l ++ (op ∷ []))
  next-Kept spill_threshold has_dir disk op b l (inl bad) =
      inl (add_op-sticky codec spill_threshold has_dir disk op b bad)
  next-Kept spill_threshold has_dir disk op b l (inr h) =
      Outcome-Kept codec _ _ _ (l ++ (op ∷ []))
        (add_op-Outcome codec spill_threshold has_dir disk op b l h)

  -- Any number of operations are appended in their order, unless a write fails.
  pub add_all-Kept :
      (spill_threshold : ℕ) (has_dir : Bool) (ops : List (Op × Bool)) (b : Buffer Op) (l : List Op)
      → Kept codec b l
      → Kept codec (add_all spill_threshold has_dir ops b) (l ++ map (λ x. x.0) ops)
  add_all-Kept spill_threshold has_dir [] b l k =
      subst (λ (x : List Op). Kept codec b x) (sym (append-nil l)) k
  add_all-Kept spill_threshold has_dir ((op, disk) ∷ ops) b l k =
      subst (λ (x : List Op). Kept codec (add_all spill_threshold has_dir ((op, disk) ∷ ops) b) x)
        (append_assoc l (op ∷ []) (map (λ x. x.0) ops))
        (add_all-Kept spill_threshold has_dir ops _ (l ++ (op ∷ []))
          (next-Kept spill_threshold has_dir disk op b l k))

  sound_case :
      (b : Buffer Op) (l : List Op) → b.spill_err ≡ false → Kept codec b l → Holds codec b l
  sound_case b l sound (inl bad) = absurd (cc (sound, bad))
  sound_case b l sound (inr h) = h

  take-kept :
      (spilled : Bool) (wire : Op → Op) (l ops : List Op)
      → take (length l) (kept codec spilled wire (l ++ ops)) ≡ kept codec spilled wire l
  take-kept false wire l ops = take-append l ops
  take-kept true wire [] ops = refl
  take-kept true wire (op ∷ l) ops = ap (λ (x : List Op). wire op ∷ x) (take-kept true wire l ops)

  -- SAVEPOINT, then any number of operations of which no write failed, then ROLLBACK TO: if the buffer
  -- is in memory then, it holds what it held at the savepoint, and if it was spilled before or between,
  -- what the codec keeps of those operations. The file system works in ROLLBACK TO, and the codec reads
  -- what it wrote of each operation as what it keeps, and can write that.
  pub rollback_to_savepoint-savepoint :
      (wire : Op → Op) (spill_threshold : ℕ) (has_dir : Bool) (name : String) (b : Buffer Op)
      (l : List Op) (ops : List (Op × Bool))
      → All (IsWired codec wire) (l ++ map (λ x. x.0) ops)
      → Holds codec b l
      → (add_all spill_threshold has_dir ops (savepoint codec name b)).spill_err ≡ false
      → Succeeds
          (λ c. Holds codec c (
            kept codec
              (add_all spill_threshold has_dir ops (savepoint codec name b)).spilled
              wire
              l))
          (rollback_to_savepoint codec true name
            (add_all spill_threshold has_dir ops (savepoint codec name b)))
  unfolding savepoint
  rollback_to_savepoint-savepoint wire spill_threshold has_dir name b l ops c h sound =
      let start = savepoint codec name b in
      let end = add_all spill_threshold has_dir ops start in
      let all = l ++ map (λ x. x.0) ops in
      let held : Kept codec end all =
        add_all-Kept spill_threshold has_dir ops start l
          (inr (record { sound = h.sound; count = h.count; stored = h.stored })) in
      let marker : find name end.savepoints ≡ some (length l) =
        ap (find name) (add_all-savepoints spill_threshold has_dir ops start)
        ∙ find-put name b.op_counter b.savepoints
        ∙ ap some h.count in
      subst
        (λ (x : List Op).
          Succeeds (λ c. Holds codec c x) (rollback_to_savepoint codec true name end))
        (take-kept end.spilled wire l (map (λ x. x.0) ops))
        (rollback_to_savepoint-Holds wire name (length l) end all c (sound_case end all sound held)
          marker (omega (arith, length-append l (map (λ x. x.0) ops))))
