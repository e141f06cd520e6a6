-- ===== src/Tx/Wire.antt =====
-- server/internal/core/executor/tx_overlay.go: the codec of spilled operations that the executor registers.
--
-- A statement has the fields that the codec looks at; of a clause that it refuses, only whether it is
-- there. OldRow and Row hold values of any type; nil is `none`. json.Marshal and json.Unmarshal of a wireOp are
-- parameters, with the test of what they can carry.
use Prim.Native.String.{String}
use pro_labs.Common.{ℕ, Bool, false, Option, none, some, List, [], ◌∷◌, if◌then◌else◌}
use pro_labs.Tx.Lines.{Codec}
use pro_labs.Tx.Expr.{
  Expr, Exprs, WireExpr, WireExprs, bind, encode_expr, decode_expr, encode_exprs, decode_exprs,
}

pub record Insert : Type 0 where
  pub table_name : String
  pub columns : List String
  pub rows : List Exprs
  pub refused_clause : Bool
  pub or_replace : Bool

pub record Update : Type 0 where
  pub table_name : String
  pub assignments : List (String × Expr)
  pub condition : Expr
  pub refused_clause : Bool
  pub from_alias : String

pub record Delete : Type 0 where
  pub table_name : String
  pub condition : Expr
  pub has_returning : Bool

pub data Payload : Type 0 where
  insert_statement : Insert → Payload
  update_statement : Update → Payload
  delete_statement : Delete → Payload
  truncate_statement : String → Payload
  other_payload : Payload

pub data OpType : Type 0 where
  insert_op : OpType
  update_op : OpType
  delete_op : OpType
  truncate_op : OpType
  unknown_op : OpType

pub record PendingOp (Data : Type 0) : Type 0 where
  pub op_type : OpType
  pub db : String
  pub table : String
  pub payload : Payload
  pub old_row : Option Data
  pub row : Option Data
  pub pos : ℕ
  pub row_key : String
  pub tuple_id : ℕ

-- The one body of a wireOp that is there.
pub data WireBody : Type 0 where
  no_body : WireBody
  wire_insert : String → List String → List WireExprs → WireBody
  wire_update : String → List (String × WireExpr) → WireExpr → WireBody
  wire_delete : String → WireExpr → WireBody
  wire_truncate : String → WireBody

pub record WireOp : Type 0 where
  pub op_type : OpType
  pub db : String
  pub table : String
  pub pos : ℕ
  pub body : WireBody

unfoldable pub encode_rows : List Exprs → Option (List WireExprs)
encode_rows [] = some []
encode_rows (row ∷ rows) =
    bind (encode_exprs row) (λ w. bind (encode_rows rows) (λ ws. some (w ∷ ws)))

unfoldable pub decode_rows : List WireExprs → Option (List Exprs)
decode_rows [] = some []
decode_rows (row ∷ rows) =
    bind (decode_exprs row) (λ w. bind (decode_rows rows) (λ ws. some (w ∷ ws)))

unfoldable pub encode_assignments : List (String × Expr) → Option (List (String × WireExpr))
encode_assignments [] = some []
encode_assignments ((column, e) ∷ assignments) =
    bind (encode_expr e)
      (λ w. bind (encode_assignments assignments) (λ ws. some ((column, w) ∷ ws)))

unfoldable pub decode_assignments : List (String × WireExpr) → Option (List (String × Expr))
decode_assignments [] = some []
decode_assignments ((column, e) ∷ assignments) =
    bind (decode_expr e)
      (λ w. bind (decode_assignments assignments) (λ ws. some ((column, w) ∷ ws)))

-- The body for a type of operation and a payload.
unfoldable pub encode_body : OpType → Payload → Option WireBody
encode_body insert_op (insert_statement s) =
    let body = bind (encode_rows s.rows) (λ rows. some (wire_insert s.table_name s.columns rows)) in
    if s.refused_clause then none else body
encode_body update_op (update_statement s) =
    let body = bind (encode_assignments s.assignments) (λ assignments.
      bind (encode_expr s.condition)
        (λ condition. some (wire_update s.table_name assignments condition))) in
    if s.refused_clause then none else body
encode_body delete_op (delete_statement s) =
    let body =
      bind (encode_expr s.condition) (λ condition. some (wire_delete s.table_name condition)) in
    if s.has_returning then none else body
encode_body truncate_op (truncate_statement table_name) = some (wire_truncate table_name)
encode_body _ _ = none

unfoldable pub decode_body : OpType → WireBody → Option Payload
decode_body insert_op (wire_insert table_name columns rows) = bind (decode_rows rows) (λ rs. some (
    insert_statement (record {
      table_name = table_name;
      columns = columns;
      rows = rs;
      refused_clause = false;
      or_replace = false;
    })))
decode_body update_op (wire_update table_name assignments condition) =
    bind (decode_assignments assignments) (λ sets. bind (decode_expr condition) (λ c. some (
      update_statement (record {
        table_name = table_name;
        assignments = sets;
        condition = c;
        refused_clause = false;
        from_alias = "";
      }))))
decode_body delete_op (wire_delete table_name condition) = bind (decode_expr condition) (λ c.
    some
      (delete_statement (record { table_name = table_name; condition = c; has_returning = false })))
decode_body truncate_op (wire_truncate table_name) = some (truncate_statement table_name)
decode_body _ _ = none

pub record WireJson : Type 0 where
  pub marshal : WireOp → Option (List ℕ)
  pub unmarshal : List ℕ → Option WireOp
  pub carries : WireOp → Bool

module _ {Data : Type 0} where
  unfoldable pub to_wire : PendingOp Data → Option WireOp
  to_wire op = bind (encode_body op.op_type op.payload) (λ body.
      some
        (record { op_type = op.op_type; db = op.db; table = op.table; pos = op.pos; body = body }))

  unfoldable pub from_wire : WireOp → Option (PendingOp Data)
  from_wire w = bind (decode_body w.op_type w.body) (λ payload. some (record {
    op_type = w.op_type;
    db = w.db;
    table = w.table;
    payload = payload;
    old_row = none;
    row = none;
    pos = w.pos;
    row_key = "";
    tuple_id = 0;
  }))

  module _ (json : WireJson) where
    unfoldable pub encode_pending_op : PendingOp Data → Option (List ℕ)
    encode_pending_op op = bind (to_wire op) json.marshal

    unfoldable pub decode_pending_op : List ℕ → Option (PendingOp Data)
    decode_pending_op bytes = bind (json.unmarshal bytes) from_wire

    -- What init registers.
    abbrev pub executor_codec : Codec (PendingOp Data)
    executor_codec = record { encode = encode_pending_op; decode = decode_pending_op }
