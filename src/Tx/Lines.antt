-- ===== src/Tx/Lines.antt =====
-- server/internal/core/txmanager/manager.go: the lines of a spill file.
use mathlib.Core.List.{append-nil, append_assoc}
use mathlib.Core.Option.{some_inj}
use pro_labs.Common.{
  ℕ, ◌<◌, ◌≡◌, ◌≢◌, ◌∙◌, sym, ap, zero, suc, take, refl, Bool, true, false, ◌&&◌, and_iff, map,
  Option, none, some, List, [], ◌∷◌, ◌++◌, ◌==◌, if◌then◌else◌, arith, length, All,
}

abbrev pub newline : ℕ
newline = 10

abbrev pub is_some : {A : Type 0} → Option A → Bool
is_some none = false
is_some (some a) = true

and_true : (b : Bool) → (b && true) ≡ b
and_true true = refl
and_true false = refl

-- The registered codec of an operation.
pub record Codec (Op : Type 0) : Type 0 where
  pub encode : Op → Option (List ℕ)
  pub decode : List ℕ → Option Op

-- The bytes of an operation are a line that is not empty, and stand for it.
abbrev pub IsLine : List ℕ → Type 0
IsLine line = (0 < length line) × All (λ b. b ≢ newline) line

-- What the codec makes of an operation: its bytes are a line, they are read as `wire op`, and that can be
-- written again. `wire` says what the codec keeps of an operation.
pub record IsWired {Op : Type 0} (codec : Codec Op) (wire : Op → Op) (op : Op) : Type 0 where
  pub line : (bytes : List ℕ) → codec.encode op ≡ some bytes → IsLine bytes
  pub back : (bytes : List ℕ) → codec.encode op ≡ some bytes → codec.decode bytes ≡ some (wire op)
  pub again :
      (bytes : List ℕ)
      → codec.encode op ≡ some bytes
      → (written : List ℕ) × (codec.encode (wire op) ≡ some written)

module _ {Op : Type 0} (codec : Codec Op) where
  abbrev pub joined : Option (List ℕ) → Option (List ℕ) → Option (List ℕ)
  joined none rest = none
  joined (some line) none = none
  joined (some line) (some rest) = some (line ++ (newline ∷ rest))

  -- The bytes that writeOpsToFile writes.
  unfoldable pub write_ops : List Op → Option (List ℕ)
  write_ops [] = some []
  write_ops (op ∷ ops) = joined (codec.encode op) (write_ops ops)

  abbrev pub prepended : Option Op → Option (List Op) → Option (List Op)
  prepended none rest = none
  prepended (some op) none = none
  prepended (some op) (some rest) = some (op ∷ rest)

  -- The operation of a line that is not empty, before those of the rest.
  abbrev pub read_line : List ℕ → Option (List Op) → Option (List Op)
  read_line [] rest = rest
  read_line (b ∷ line) rest = prepended (codec.decode (b ∷ line)) rest

  -- The loop of ReadOps; `line` has been read up to here.
  unfoldable pub read_lines : List ℕ → List ℕ → Option (List Op)
  read_lines line [] = read_line line (some [])
  read_lines line (b ∷ bytes) =
      let rest = read_lines [] bytes in
      let more = read_lines (line ++ (b ∷ [])) bytes in
      if b == newline then read_line line rest else more

  read_lines-append :
      (line rest bytes : List ℕ)
      → All (λ b. b ≢ newline) rest
      → read_lines line (rest ++ (newline ∷ bytes)) ≡ read_line (line ++ rest) (read_lines [] bytes)
  unfolding read_lines
  read_lines-append line [] bytes h =
      ap (λ x. read_line x (read_lines [] bytes)) (sym (append-nil line))
  read_lines-append line (b ∷ rest) bytes h =
      let e : (b == newline) ≡ false = ground (arith, h.0) in
      rw e (
        read_lines-append (line ++ (b ∷ [])) rest bytes h.1
        ∙ ap (λ x. read_line x (read_lines [] bytes)) (append_assoc line (b ∷ []) rest))

  read_first :
      (wire : Op → Op) (op : Op) (line bytes : List ℕ) (ops : List Op)
      → IsWired codec wire op
      → codec.encode op ≡ some line
      → read_lines [] bytes ≡ some ops
      → read_lines [] (line ++ (newline ∷ bytes)) ≡ some (wire op ∷ ops)
  read_first wire op [] bytes ops c e h = absurd (omega (arith, (c.line [] e).0))
  read_first wire op (b ∷ line) bytes ops c e h =
      read_lines-append [] (b ∷ line) bytes (c.line (b ∷ line) e).1
      ∙ rw (h, c.back (b ∷ line) e) refl

  joined_cases :
      (x y : Option (List ℕ)) (file : List ℕ)
      → joined x y ≡ some file
      → (line : List ℕ) × (rest : List ℕ) × (x ≡ some line)
        × (y ≡ some rest)
        × (line ++ (newline ∷ rest) ≡ file)
  joined_cases none y file h = absurd (cc h)
  joined_cases (some line) none file h = absurd (cc h)
  joined_cases (some line) (some rest) file h = (line, rest, refl, refl, some_inj.0 h)

  -- ReadOps gives what the codec keeps of the operations that writeOpsToFile wrote.
  pub read_lines-write_ops :
      (wire : Op → Op) (ops : List Op) (file : List ℕ)
      → All (IsWired codec wire) ops
      → write_ops ops ≡ some file
      → read_lines [] file ≡ some (map wire ops)
  unfolding read_lines write_ops
  read_lines-write_ops wire [] file c h = ap (read_lines []) (sym (some_inj.0 h))
  read_lines-write_ops wire (op ∷ ops) file c h =
      let (line, rest, e, r, f) = joined_cases (codec.encode op) (write_ops ops) file h in
      ap (read_lines []) (sym f)
      ∙ read_first wire op line rest (map wire ops) c.0 e (read_lines-write_ops wire ops rest c.1 r)

  -- What was read can be written.
  pub write_ops-wire :
      (wire : Op → Op) (ops : List Op) (file : List ℕ)
      → All (IsWired codec wire) ops
      → write_ops ops ≡ some file
      → (written : List ℕ) × (write_ops (map wire ops) ≡ some written)
  unfolding write_ops
  write_ops-wire wire [] file c h = ([], refl)
  write_ops-wire wire (op ∷ ops) file c h =
      let (line, rest, e, r, f) = joined_cases (codec.encode op) (write_ops ops) file h in
      let (first, k) = c.0.again line e in
      let (others, l) = write_ops-wire wire ops rest c.1 r in
      (
        first ++ (newline ∷ others),
        ap (λ x. joined x (write_ops (map wire ops))) k ∙ ap (joined (some first)) l,
      )

  -- The codec has bytes for each of these operations.
  abbrev pub encodable : List Op → Bool
  encodable [] = true
  encodable (op ∷ ops) = is_some (codec.encode op) && encodable ops

  is_some-joined : (x y : Option (List ℕ)) → is_some (joined x y) ≡ (is_some x && is_some y)
  is_some-joined none y = refl
  is_some-joined (some line) none = refl
  is_some-joined (some line) (some rest) = refl

  pub is_some-write_ops : (ops : List Op) → is_some (write_ops ops) ≡ encodable ops
  unfolding write_ops
  is_some-write_ops [] = refl
  is_some-write_ops (op ∷ ops) =
      is_some-joined (codec.encode op) (write_ops ops)
      ∙ ap (λ b. is_some (codec.encode op) && b) (is_some-write_ops ops)

  pub encodable-append :
      (ops : List Op) (op : Op)
      → encodable ops ≡ true
      → encodable (ops ++ (op ∷ [])) ≡ is_some (codec.encode op)
  encodable-append [] op h = and_true (is_some (codec.encode op))
  encodable-append (o ∷ ops) op h =
      let (first, rest) = (and_iff (is_some (codec.encode o)) (encodable ops)).0 h in
      rw (first, encodable-append ops op rest) refl

  -- A line more at the end of the file.
  pub write_ops-append :
      (ops : List Op) (op : Op) (file line : List ℕ)
      → write_ops ops ≡ some file
      → codec.encode op ≡ some line
      → write_ops (ops ++ (op ∷ [])) ≡ some (file ++ (line ++ (newline ∷ [])))
  unfolding write_ops
  write_ops-append [] op file line h e =
      rw e (ap (λ (x : List ℕ). some (x ++ (line ++ (newline ∷ [])))) (some_inj.0 h))
  write_ops-append (o ∷ ops) op file line h e =
      let (first, rest, eo, r, f) = joined_cases (codec.encode o) (write_ops ops) file h in
      rw (eo, write_ops-append ops op rest line r e)
        (ap some (
          sym (append_assoc first (newline ∷ rest) (line ++ (newline ∷ [])))
          ∙ ap (λ (x : List ℕ). x ++ (line ++ (newline ∷ []))) f))

  -- The first of some operations that can be written can be written.
  pub write_ops-take :
      (n : ℕ) (ops : List Op) (file : List ℕ)
      → write_ops ops ≡ some file
      → (kept : List ℕ) × (write_ops (take n ops) ≡ some kept)
  unfolding write_ops
  write_ops-take zero ops file h = ([], refl)
  write_ops-take (suc n) [] file h = ([], refl)
  write_ops-take (suc n) (op ∷ ops) file h =
      let (line, rest, e, r, f) = joined_cases (codec.encode op) (write_ops ops) file h in
      let (kept, k) = write_ops-take n ops rest r in
      (
        line ++ (newline ∷ kept),
        ap (λ x. joined x (write_ops (take n ops))) e ∙ ap (joined (some line)) k,
      )
