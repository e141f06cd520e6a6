-- ===== src/Tx/Tests.antt =====
-- server/internal/core/txmanager/manager.go: a small buffer, and the theorems at it.
use Prim.Native.String.{String}
use text.Mathlib.Text.{◌==◌ as str_eq}
use text.Mathlib.TextEquality.{eq_iff}
use mathlib.Core.Path.{subst}
use mathlib.Core.Option.{some_inj}
use pro_labs.Common.{
  ℕ, ◌+◌, ◌-◌, ◌≡◌, refl, ap, Bool, true, false, ◌&&◌, and_iff, Option, none, some, List, [], ◌∷◌,
  ◌++◌, arith,
}
use pro_labs.Tx.Lines.{Codec, IsWired, IsLine, write_ops, read_lines}
use pro_labs.Tx.Expr.{
  nil_expr, encode_expr, nil_wire, wire_val, wire_col, wire_bin, wire_and, wire_or, wire_not,
  wire_fn, wire_in, wire_param, unknown_kind,
}
use pro_labs.Tx.Wire.{
  OpType, insert_op, update_op, delete_op, truncate_op, unknown_op, WireBody, no_body, wire_insert,
  wire_update, wire_delete, wire_truncate, WireOp, WireJson, PendingOp, delete_statement,
  encode_body, to_wire, encode_pending_op, executor_codec,
}
use pro_labs.Tx.Kept.{kept_op, IsWireJson, executor_codec-IsWired}
use pro_labs.Tx.{
  spill_to_disk, spilled_to, append_op_to_file, appended, Buffer, add_op, savepoint,
  rollback_to_savepoint, read_ops,
}
use pro_labs.Tx.Holds.{Holds, kept}
use pro_labs.Tx.Spill.{Outcome, must_write, write_fails, add_op-Outcome}
use pro_labs.Tx.Savepoints.{Succeeds, add_all, rollback_to_savepoint-savepoint}

-- Numbers as lines of one byte.
abbrev bytes_codec : Codec ℕ
bytes_codec = record {
  encode = λ n. some ((n + 11) ∷ []);
  decode = λ line. elim line [ [] ↦ none | b ∷ rest ↦ some (b - 11) ];
}

abbrev two_ops : Buffer ℕ
two_ops = record {
  ops = 5 ∷ 6 ∷ [];
  op_counter = 2;
  savepoints = ("a", 1) ∷ [];
  savepoint_order = "a" ∷ [];
  spilled = false;
  file = [];
  spill_err = false;
}

two_ops-Holds : Holds bytes_codec two_ops (5 ∷ 6 ∷ [])
two_ops-Holds = record { sound = refl; count = refl; stored = refl }

-- The third operation passes the threshold and spills.
spills :
    read_ops bytes_codec true (add_op bytes_codec 3 true true 7 two_ops) ≡ some (5 ∷ 6 ∷ 7 ∷ [])
unfolding read_ops add_op spill_to_disk spilled_to write_ops read_lines
spills = refl

add_op-Outcome_example :
    Outcome bytes_codec
      (write_fails bytes_codec 3 true true false ((5 ∷ 6 ∷ []) ++ (7 ∷ [])))
      (must_write bytes_codec 3 true false ((5 ∷ 6 ∷ []) ++ (7 ∷ [])))
      (add_op bytes_codec 3 true true 7 two_ops)
      ((5 ∷ 6 ∷ []) ++ (7 ∷ []))
add_op-Outcome_example = add_op-Outcome bytes_codec 3 true true 7 two_ops (5 ∷ 6 ∷ []) two_ops-Holds

-- The write is due, and does not fail if the file system works.
due :
    (must_write bytes_codec 3 true false (5 ∷ 6 ∷ 7 ∷ []) ≡ true)
    × (write_fails bytes_codec 3 true true false (5 ∷ 6 ∷ 7 ∷ []) ≡ false)
    × (write_fails bytes_codec 3 true false false (5 ∷ 6 ∷ 7 ∷ []) ≡ true)
due = (refl, refl, refl)

abbrev wire_of : OpType → String → String → ℕ → WireBody → WireOp
wire_of t db table pos body = record { op_type = t; db = db; table = table; pos = pos; body = body }

-- The position of a DELETE without a condition, as a line of one byte.
abbrev line_of : ℕ → WireBody → Option (List ℕ)
line_of pos (wire_delete name nil_wire) = some ((pos + 11) ∷ [])
line_of pos (wire_delete name _) = none
line_of pos no_body = none
line_of pos (wire_insert name columns rows) = none
line_of pos (wire_update name sets c) = none
line_of pos (wire_truncate name) = none

abbrev is_delete : OpType → Bool
is_delete delete_op = true
is_delete _ = false

abbrev is_of_t : WireBody → Bool
is_of_t (wire_delete name c) = str_eq name "t"
is_of_t _ = false

abbrev read_byte : List ℕ → Option WireOp
read_byte [] = none
read_byte (b ∷ rest) = some (wire_of delete_op "d" "t" (b - 11) (wire_delete "t" nil_wire))

-- It carries the DELETEs of one table.
abbrev byte_json : WireJson
byte_json = record {
  marshal = λ w. line_of w.pos w.body;
  unmarshal = read_byte;
  carries = λ w. (is_delete w.op_type && is_of_t w.body) && (str_eq w.db "d" && str_eq w.table "t");
}

is_delete_lem : (t : OpType) → is_delete t ≡ true → t ≡ delete_op
is_delete_lem delete_op h = refl
is_delete_lem insert_op h = absurd (cc h)
is_delete_lem update_op h = absurd (cc h)
is_delete_lem truncate_op h = absurd (cc h)
is_delete_lem unknown_op h = absurd (cc h)

delete_body :
    (body : WireBody) (pos : ℕ) (bytes : List ℕ)
    → is_of_t body ≡ true
    → line_of pos body ≡ some bytes
    → ((pos + 11) ∷ [] ≡ bytes) × (body ≡ wire_delete "t" nil_wire)
delete_body no_body pos bytes h k = absurd (cc h)
delete_body (wire_insert name columns rows) pos bytes h k = absurd (cc h)
delete_body (wire_update name sets c) pos bytes h k = absurd (cc h)
delete_body (wire_truncate name) pos bytes h k = absurd (cc h)
delete_body (wire_delete name nil_wire) pos bytes h k =
    (some_inj.0 k, ap (λ x. wire_delete x nil_wire) ((eq_iff name "t").0 h))
delete_body (wire_delete name (wire_val v)) pos bytes h k = absurd (cc k)
delete_body (wire_delete name (wire_col n)) pos bytes h k = absurd (cc k)
delete_body (wire_delete name (wire_bin o l r)) pos bytes h k = absurd (cc k)
delete_body (wire_delete name (wire_and l r)) pos bytes h k = absurd (cc k)
delete_body (wire_delete name (wire_or l r)) pos bytes h k = absurd (cc k)
delete_body (wire_delete name (wire_not l)) pos bytes h k = absurd (cc k)
delete_body (wire_delete name (wire_fn n a)) pos bytes h k = absurd (cc k)
delete_body (wire_delete name (wire_in l a b)) pos bytes h k = absurd (cc k)
delete_body (wire_delete name (wire_param i)) pos bytes h k = absurd (cc k)
delete_body (wire_delete name unknown_kind) pos bytes h k = absurd (cc k)

byte_json-IsWireJson : IsWireJson byte_json
byte_json-IsWireJson w bytes h k =
    let (kinds, names) =
      (and_iff (is_delete w.op_type && is_of_t w.body) (str_eq w.db "d" && str_eq w.table "t")).0
        h in
    let (kind, of_t) = (and_iff (is_delete w.op_type) (is_of_t w.body)).0 kinds in
    let (d, t) = (and_iff (str_eq w.db "d") (str_eq w.table "t")).0 names in
    let (line, body) = delete_body w.body w.pos bytes of_t k in
    let same_pos : w.pos + 11 - 11 ≡ w.pos = omega arith in
    let read : wire_of delete_op "d" "t" (w.pos + 11 - 11) (wire_delete "t" nil_wire) ≡ w = cc (
      is_delete_lem w.op_type kind,
      (eq_iff w.db "d").0 d,
      (eq_iff w.table "t").0 t,
      body,
      same_pos,
    ) in
    subst (λ x. IsLine x × (read_byte x ≡ some w)) line
      ((omega arith, (λ e. absurd (omega arith), tt)), ap some read)

abbrev delete_at : ℕ → PendingOp ℕ
delete_at n = record {
  op_type = delete_op;
  db = "d";
  table = "t";
  payload =
      delete_statement (record { table_name = "t"; condition = nil_expr; has_returning = false });
  old_row = some n;
  row = some n;
  pos = n;
  row_key = "key";
  tuple_id = n;
}

delete_at-IsWired : (n : ℕ) → IsWired (executor_codec byte_json) kept_op (delete_at n)
unfolding to_wire encode_body encode_expr
delete_at-IsWired n =
    executor_codec-IsWired byte_json (delete_at n) byte_json-IsWireJson
      (λ w e. subst (λ x. byte_json.carries x ≡ true) (some_inj.0 e) refl)

abbrev two_deletes : Buffer (PendingOp ℕ)
two_deletes = record {
  ops = delete_at 5 ∷ delete_at 6 ∷ [];
  op_counter = 2;
  savepoints = ("a", 1) ∷ [];
  savepoint_order = "a" ∷ [];
  spilled = false;
  file = [];
  spill_err = false;
}

abbrev behind_savepoint : Buffer (PendingOp ℕ)
behind_savepoint =
    add_all (executor_codec byte_json) 3 true ((delete_at 7, true) ∷ (delete_at 8, true) ∷ [])
      (savepoint (executor_codec byte_json) "b" two_deletes)

in_file : (behind_savepoint.spill_err ≡ false) × (behind_savepoint.spilled ≡ true)
unfolding add_op savepoint spill_to_disk spilled_to write_ops append_op_to_file appended
    encode_pending_op to_wire encode_body encode_expr
in_file = (refl, refl)

-- The rows that the DELETEs had removed are not kept.
rollback_to_savepoint-savepoint_example :
    Succeeds
      (executor_codec byte_json)
      (λ c. Holds (executor_codec byte_json) c (
        kept
          (executor_codec byte_json)
          behind_savepoint.spilled
          kept_op
          (delete_at 5 ∷ delete_at 6 ∷ [])))
      (rollback_to_savepoint (executor_codec byte_json) true "b" behind_savepoint)
rollback_to_savepoint-savepoint_example =
    rollback_to_savepoint-savepoint (executor_codec byte_json) kept_op 3 true "b" two_deletes
      (delete_at 5 ∷ delete_at 6 ∷ []) ((delete_at 7, true) ∷ (delete_at 8, true) ∷ [])
      (delete_at-IsWired 5, (delete_at-IsWired 6, (delete_at-IsWired 7, (delete_at-IsWired 8, tt))))
      (record { sound = refl; count = refl; stored = refl }) in_file.0
