-- ===== src/Tx/Kept.antt =====
-- server/internal/core/executor/tx_overlay.go: what the executor's codec keeps of an operation.
use Prim.Native.String.{String}
use mathlib.Core.Option.{some_inj}
use pro_labs.Common.{
  ℕ, ◌≡◌, refl, ap, sym, ◌∙◌, Bool, true, false, Option, none, some, List, [], ◌∷◌, map,
  if◌then◌else◌,
}
use pro_labs.Tx.Lines.{IsWired, IsLine}
use pro_labs.Tx.Expr.{
  Expr, Exprs, WireExpr, WireExprs, bind, bind_cases, two_parts, one_part, encode_expr, kept_expr,
  encode_exprs, kept_exprs, decode_expr-encode_expr, encode_expr-kept_expr,
  decode_exprs-encode_exprs, encode_exprs-kept_exprs,
}
use pro_labs.Tx.Wire.{
  Payload, insert_statement, update_statement, delete_statement, truncate_statement, other_payload,
  OpType, insert_op, update_op, delete_op, truncate_op, unknown_op, PendingOp, WireBody, WireOp,
  encode_rows, decode_rows, encode_assignments, decode_assignments, encode_body, decode_body,
  WireJson, to_wire, from_wire, encode_pending_op, decode_pending_op, executor_codec,
}

abbrev kept_assignment : String × Expr → String × Expr
kept_assignment (column, e) = (column, kept_expr e)

abbrev pub kept_payload : Payload → Payload
kept_payload (insert_statement s) =
    insert_statement
      (record s { rows = map kept_exprs s.rows; refused_clause = false; or_replace = false })
kept_payload (update_statement s) = update_statement (record s {
  assignments = map kept_assignment s.assignments;
  condition = kept_expr s.condition;
  refused_clause = false;
  from_alias = "";
})
kept_payload (delete_statement s) =
    delete_statement (record s { condition = kept_expr s.condition; has_returning = false })
kept_payload (truncate_statement table_name) = truncate_statement table_name
kept_payload other_payload = other_payload

decode_rows-encode_rows :
    (rows : List Exprs) (w : List WireExprs)
    → encode_rows rows ≡ some w
    → decode_rows w ≡ some (map kept_exprs rows)
unfolding encode_rows decode_rows
decode_rows-encode_rows [] w h = ap decode_rows (sym (some_inj.0 h))
decode_rows-encode_rows (row ∷ rows) w h =
    let (a, b, ea, eb, f) = two_parts (encode_exprs row) (encode_rows rows) _ w h in
    ap decode_rows (sym f)
    ∙ rw (decode_exprs-encode_exprs row a ea, decode_rows-encode_rows rows b eb) refl

decode_assignments-encode_assignments :
    (sets : List (String × Expr)) (w : List (String × WireExpr))
    → encode_assignments sets ≡ some w
    → decode_assignments w ≡ some (map kept_assignment sets)
unfolding encode_assignments decode_assignments
decode_assignments-encode_assignments [] w h = ap decode_assignments (sym (some_inj.0 h))
decode_assignments-encode_assignments ((column, e) ∷ sets) w h =
    let (a, b, ea, eb, f) = two_parts (encode_expr e) (encode_assignments sets) _ w h in
    ap decode_assignments (sym f)
    ∙ rw (decode_expr-encode_expr e a ea, decode_assignments-encode_assignments sets b eb) refl

encode_rows-kept : (rows : List Exprs) → encode_rows (map kept_exprs rows) ≡ encode_rows rows
unfolding encode_rows
encode_rows-kept [] = refl
encode_rows-kept (row ∷ rows) = rw (encode_exprs-kept_exprs row, encode_rows-kept rows) refl

encode_assignments-kept :
    (sets : List (String × Expr))
    → encode_assignments (map kept_assignment sets) ≡ encode_assignments sets
unfolding encode_assignments
encode_assignments-kept [] = refl
encode_assignments-kept ((column, e) ∷ sets) =
    rw (encode_expr-kept_expr e, encode_assignments-kept sets) refl

allowed :
    {A : Type 0} (refused : Bool) (x : Option A) (a : A)
    → (if refused then none else x) ≡ some a
    → x ≡ some a
allowed true x a h = absurd (cc h)
allowed false x a h = h

decode_body-encode_body :
    (t : OpType) (p : Payload) (b : WireBody)
    → encode_body t p ≡ some b
    → decode_body t b ≡ some (kept_payload p)
unfolding encode_body decode_body
decode_body-encode_body insert_op (insert_statement s) b h =
    let (rows, e, f) = one_part (encode_rows s.rows) _ b (allowed s.refused_clause _ b h) in
    ap (decode_body insert_op) (sym f) ∙ rw (decode_rows-encode_rows s.rows rows e) refl
decode_body-encode_body update_op (update_statement s) b h =
    let (sets, c, es, ec, f) =
      two_parts (encode_assignments s.assignments) (encode_expr s.condition) _ b
        (allowed s.refused_clause _ b h) in
    ap (decode_body update_op) (sym f)
    ∙ rw
        (
          decode_assignments-encode_assignments s.assignments sets es,
          decode_expr-encode_expr s.condition c ec,
        )
        refl
decode_body-encode_body delete_op (delete_statement s) b h =
    let (c, e, f) = one_part (encode_expr s.condition) _ b (allowed s.has_returning _ b h) in
    ap (decode_body delete_op) (sym f) ∙ rw (decode_expr-encode_expr s.condition c e) refl
decode_body-encode_body truncate_op (truncate_statement s) b h =
    ap (decode_body truncate_op) (sym (some_inj.0 h))
decode_body-encode_body insert_op (update_statement s) b h = absurd (cc h)
decode_body-encode_body insert_op (delete_statement s) b h = absurd (cc h)
decode_body-encode_body insert_op (truncate_statement s) b h = absurd (cc h)
decode_body-encode_body insert_op other_payload b h = absurd (cc h)
decode_body-encode_body update_op (insert_statement s) b h = absurd (cc h)
decode_body-encode_body update_op (delete_statement s) b h = absurd (cc h)
decode_body-encode_body update_op (truncate_statement s) b h = absurd (cc h)
decode_body-encode_body update_op other_payload b h = absurd (cc h)
decode_body-encode_body delete_op (insert_statement s) b h = absurd (cc h)
decode_body-encode_body delete_op (update_statement s) b h = absurd (cc h)
decode_body-encode_body delete_op (truncate_statement s) b h = absurd (cc h)
decode_body-encode_body delete_op other_payload b h = absurd (cc h)
decode_body-encode_body truncate_op (insert_statement s) b h = absurd (cc h)
decode_body-encode_body truncate_op (update_statement s) b h = absurd (cc h)
decode_body-encode_body truncate_op (delete_statement s) b h = absurd (cc h)
decode_body-encode_body truncate_op other_payload b h = absurd (cc h)
decode_body-encode_body unknown_op (insert_statement s) b h = absurd (cc h)
decode_body-encode_body unknown_op (update_statement s) b h = absurd (cc h)
decode_body-encode_body unknown_op (delete_statement s) b h = absurd (cc h)
decode_body-encode_body unknown_op (truncate_statement s) b h = absurd (cc h)
decode_body-encode_body unknown_op other_payload b h = absurd (cc h)

encode_body-kept_payload :
    (t : OpType) (p : Payload) (b : WireBody)
    → encode_body t p ≡ some b
    → encode_body t (kept_payload p) ≡ some b
unfolding encode_body
encode_body-kept_payload insert_op (insert_statement s) b h =
    rw (encode_rows-kept s.rows) (allowed s.refused_clause _ b h)
encode_body-kept_payload update_op (update_statement s) b h =
    rw (encode_assignments-kept s.assignments, encode_expr-kept_expr s.condition)
      (allowed s.refused_clause _ b h)
encode_body-kept_payload delete_op (delete_statement s) b h =
    rw (encode_expr-kept_expr s.condition) (allowed s.has_returning _ b h)
encode_body-kept_payload truncate_op (truncate_statement s) b h = h
encode_body-kept_payload insert_op (update_statement s) b h = absurd (cc h)
encode_body-kept_payload insert_op (delete_statement s) b h = absurd (cc h)
encode_body-kept_payload insert_op (truncate_statement s) b h = absurd (cc h)
encode_body-kept_payload insert_op other_payload b h = absurd (cc h)
encode_body-kept_payload update_op (insert_statement s) b h = absurd (cc h)
encode_body-kept_payload update_op (delete_statement s) b h = absurd (cc h)
encode_body-kept_payload update_op (truncate_statement s) b h = absurd (cc h)
encode_body-kept_payload update_op other_payload b h = absurd (cc h)
encode_body-kept_payload delete_op (insert_statement s) b h = absurd (cc h)
encode_body-kept_payload delete_op (update_statement s) b h = absurd (cc h)
encode_body-kept_payload delete_op (truncate_statement s) b h = absurd (cc h)
encode_body-kept_payload delete_op other_payload b h = absurd (cc h)
encode_body-kept_payload truncate_op (insert_statement s) b h = absurd (cc h)
encode_body-kept_payload truncate_op (update_statement s) b h = absurd (cc h)
encode_body-kept_payload truncate_op (delete_statement s) b h = absurd (cc h)
encode_body-kept_payload truncate_op other_payload b h = absurd (cc h)
encode_body-kept_payload unknown_op (insert_statement s) b h = absurd (cc h)
encode_body-kept_payload unknown_op (update_statement s) b h = absurd (cc h)
encode_body-kept_payload unknown_op (delete_statement s) b h = absurd (cc h)
encode_body-kept_payload unknown_op (truncate_statement s) b h = absurd (cc h)
encode_body-kept_payload unknown_op other_payload b h = absurd (cc h)

-- json.Marshal writes a line for what it can carry, and json.Unmarshal reads the same from it.
abbrev pub IsWireJson : WireJson → Type 0
IsWireJson json =
    (w : WireOp) (bytes : List ℕ)
    → json.carries w ≡ true
    → json.marshal w ≡ some bytes
    → IsLine bytes × (json.unmarshal bytes ≡ some w)

module _ {Data : Type 0} where
  -- OldRow, Row, RowKey and TupleID are lost.
  abbrev pub kept_op : PendingOp Data → PendingOp Data
  kept_op op = record op {
    payload = kept_payload op.payload;
    old_row = none;
    row = none;
    row_key = "";
    tuple_id = 0;
  }

  module _ (json : WireJson) where
    -- The executor's codec keeps the type, the tables, the position and the statement.
    pub executor_codec-IsWired :
        (op : PendingOp Data)
        → IsWireJson json
        → ((w : WireOp) → to_wire op ≡ some w → json.carries w ≡ true)
        → IsWired (executor_codec json) kept_op op
    unfolding encode_pending_op decode_pending_op to_wire from_wire
    executor_codec-IsWired op laws carried =
        let parts = λ (bytes : List ℕ) (h : encode_pending_op json op ≡ some bytes).
          bind_cases (to_wire op) json.marshal bytes h in
        record {
          line = λ bytes h. let (w, e, k) = parts bytes h in (laws w bytes (carried w e) k).0;
          back = λ bytes h.
              let (w, e, k) = parts bytes h in
              let (b, eb, f) = one_part (encode_body op.op_type op.payload) _ w e in
              let read =
                ap (λ x. bind x (from_wire {Data = Data})) (laws w bytes (carried w e) k).1 in
              read
              ∙ ap (from_wire {Data = Data}) (sym f)
              ∙ rw (decode_body-encode_body op.op_type op.payload b eb) refl;
          again = λ bytes h.
              let (w, e, k) = parts bytes h in
              let (b, eb, f) = one_part (encode_body op.op_type op.payload) _ w e in
              (
                bytes,
                rw (encode_body-kept_payload op.op_type op.payload b eb) (ap json.marshal f ∙ k),
              );
        }
