-- ===== src/Tx/Expr.antt =====
-- server/internal/core/executor/tx_overlay.go: expressions in a spill file.
--
-- A wireExpr is one kind of node with the fields that its kind uses; the others have their zero value, which
-- is left out of the text. A nil expression is a nil pointer there. Int64, float64 and int are their 64 bits.
use Prim.Native.String.{String}
use mathlib.Core.Option.{some_inj}
use pro_labs.Common.{ℕ, ◌≡◌, refl, ap, sym, ◌∙◌, Bool, true, Option, none, some}

pub record Literal : Type 0 where
  pub type_name : String
  pub int_val : ℕ
  pub flt_val : ℕ
  pub str_val : String
  pub bool_val : Bool

-- A literal is a Value or a pointer to one.
mutual
  pub data Expr : Type 0 where
    nil_expr : Expr
    value : Bool → Literal → Expr
    column_ref : String → String → Expr
    binary_expr : Expr → String → Expr → Expr
    and_expr : Expr → Expr → Expr
    or_expr : Expr → Expr → Expr
    not_expr : Expr → Expr
    function_call : String → Exprs → Expr
    in_expr : Expr → Bool → Exprs → Expr
    param_ref : ℕ → Expr
    other_expr : Expr

  pub data Exprs : Type 0 where
    no_exprs : Exprs
    expr : Expr → Exprs → Exprs

mutual
  pub data WireExpr : Type 0 where
    nil_wire : WireExpr
    wire_val : Literal → WireExpr
    wire_col : String → WireExpr
    wire_bin : String → WireExpr → WireExpr → WireExpr
    wire_and : WireExpr → WireExpr → WireExpr
    wire_or : WireExpr → WireExpr → WireExpr
    wire_not : WireExpr → WireExpr
    wire_fn : String → WireExprs → WireExpr
    wire_in : WireExpr → WireExprs → Bool → WireExpr
    wire_param : ℕ → WireExpr
    unknown_kind : WireExpr

  pub data WireExprs : Type 0 where
    no_wires : WireExprs
    wire : WireExpr → WireExprs → WireExprs

abbrev pub bind : {A B : Type 0} → Option A → (A → Option B) → Option B
bind none f = none
bind (some a) f = f a

unfoldable mutual
  pub encode_expr : Expr → Option WireExpr
  encode_expr nil_expr = some nil_wire
  encode_expr (value by_pointer v) = some (wire_val v)
  encode_expr (column_ref name table) = some (wire_col name)
  encode_expr (binary_expr left op right) =
      bind (encode_expr left) (λ l. bind (encode_expr right) (λ r. some (wire_bin op l r)))
  encode_expr (and_expr left right) =
      bind (encode_expr left) (λ l. bind (encode_expr right) (λ r. some (wire_and l r)))
  encode_expr (or_expr left right) =
      bind (encode_expr left) (λ l. bind (encode_expr right) (λ r. some (wire_or l r)))
  encode_expr (not_expr e) = bind (encode_expr e) (λ l. some (wire_not l))
  encode_expr (function_call name args) = bind (encode_exprs args) (λ a. some (wire_fn name a))
  encode_expr (in_expr left negated right) =
      bind (encode_expr left) (λ l. bind (encode_exprs right) (λ r. some (wire_in l r negated)))
  encode_expr (param_ref index) = some (wire_param index)
  encode_expr other_expr = none

  -- The loop over some expressions.
  pub encode_exprs : Exprs → Option WireExprs
  encode_exprs no_exprs = some no_wires
  encode_exprs (expr e es) =
      bind (encode_expr e) (λ w. bind (encode_exprs es) (λ ws. some (wire w ws)))

unfoldable mutual
  pub decode_expr : WireExpr → Option Expr
  decode_expr nil_wire = some nil_expr
  decode_expr (wire_val v) = some (value true v)
  decode_expr (wire_col name) = some (column_ref name "")
  decode_expr (wire_bin op left right) =
      bind (decode_expr left) (λ l. bind (decode_expr right) (λ r. some (binary_expr l op r)))
  decode_expr (wire_and left right) =
      bind (decode_expr left) (λ l. bind (decode_expr right) (λ r. some (and_expr l r)))
  decode_expr (wire_or left right) =
      bind (decode_expr left) (λ l. bind (decode_expr right) (λ r. some (or_expr l r)))
  decode_expr (wire_not e) = bind (decode_expr e) (λ l. some (not_expr l))
  decode_expr (wire_fn name args) = bind (decode_exprs args) (λ a. some (function_call name a))
  decode_expr (wire_in left right negated) =
      bind (decode_expr left) (λ l. bind (decode_exprs right) (λ r. some (in_expr l negated r)))
  decode_expr (wire_param index) = some (param_ref index)
  decode_expr unknown_kind = none

  pub decode_exprs : WireExprs → Option Exprs
  decode_exprs no_wires = some no_exprs
  decode_exprs (wire e es) =
      bind (decode_expr e) (λ w. bind (decode_exprs es) (λ ws. some (expr w ws)))

-- What is read of an expression: a literal is a pointer, and a column has lost its table.
unfoldable mutual
  pub kept_expr : Expr → Expr
  kept_expr nil_expr = nil_expr
  kept_expr (value by_pointer v) = value true v
  kept_expr (column_ref name table) = column_ref name ""
  kept_expr (binary_expr l op r) = binary_expr (kept_expr l) op (kept_expr r)
  kept_expr (and_expr l r) = and_expr (kept_expr l) (kept_expr r)
  kept_expr (or_expr l r) = or_expr (kept_expr l) (kept_expr r)
  kept_expr (not_expr e) = not_expr (kept_expr e)
  kept_expr (function_call name args) = function_call name (kept_exprs args)
  kept_expr (in_expr l negated r) = in_expr (kept_expr l) negated (kept_exprs r)
  kept_expr (param_ref index) = param_ref index
  kept_expr other_expr = other_expr

  pub kept_exprs : Exprs → Exprs
  kept_exprs no_exprs = no_exprs
  kept_exprs (expr e es) = expr (kept_expr e) (kept_exprs es)

pub bind_cases :
    {A B : Type 0} (x : Option A) (f : A → Option B) (b : B)
    → bind x f ≡ some b
    → (a : A) × (x ≡ some a) × (f a ≡ some b)
bind_cases none f b h = absurd (cc h)
bind_cases (some a) f b h = (a, refl, h)

-- Two parts, and the whole.
pub two_parts :
    {A B C : Type 0} (x : Option A) (y : Option B) (f : A → B → C) (c : C)
    → bind x (λ a. bind y (λ b. some (f a b))) ≡ some c
    → (a : A) × (b : B) × (x ≡ some a) × (y ≡ some b) × (f a b ≡ c)
two_parts x y f c h =
    let (a, e, h1) = bind_cases x _ c h in
    let (b, k, h2) = bind_cases y _ c h1 in (a, b, e, k, some_inj.0 h2)

pub one_part :
    {A C : Type 0} (x : Option A) (f : A → C) (c : C)
    → bind x (λ a. some (f a)) ≡ some c
    → (a : A) × (x ≡ some a) × (f a ≡ c)
one_part x f c h = let (a, e, k) = bind_cases x _ c h in (a, e, some_inj.0 k)

mutual
  unfolding encode_expr decode_expr kept_expr

  -- What is written for an expression is read as what is kept of it.
  pub decode_expr-encode_expr :
      (e : Expr) (w : WireExpr) → encode_expr e ≡ some w → decode_expr w ≡ some (kept_expr e)
  decode_expr-encode_expr nil_expr w h = ap decode_expr (sym (some_inj.0 h))
  decode_expr-encode_expr (value p v) w h = ap decode_expr (sym (some_inj.0 h))
  decode_expr-encode_expr (column_ref n t) w h = ap decode_expr (sym (some_inj.0 h))
  decode_expr-encode_expr (param_ref i) w h = ap decode_expr (sym (some_inj.0 h))
  decode_expr-encode_expr other_expr w h = absurd (cc h)
  decode_expr-encode_expr (binary_expr l op r) w h =
      let (a, b, ea, eb, f) = two_parts (encode_expr l) (encode_expr r) _ w h in
      ap decode_expr (sym f)
      ∙ rw (decode_expr-encode_expr l a ea, decode_expr-encode_expr r b eb) refl
  decode_expr-encode_expr (and_expr l r) w h =
      let (a, b, ea, eb, f) = two_parts (encode_expr l) (encode_expr r) _ w h in
      ap decode_expr (sym f)
      ∙ rw (decode_expr-encode_expr l a ea, decode_expr-encode_expr r b eb) refl
  decode_expr-encode_expr (or_expr l r) w h =
      let (a, b, ea, eb, f) = two_parts (encode_expr l) (encode_expr r) _ w h in
      ap decode_expr (sym f)
      ∙ rw (decode_expr-encode_expr l a ea, decode_expr-encode_expr r b eb) refl
  decode_expr-encode_expr (not_expr e) w h =
      let (a, ea, f) = one_part (encode_expr e) _ w h in
      ap decode_expr (sym f) ∙ rw (decode_expr-encode_expr e a ea) refl
  decode_expr-encode_expr (function_call n args) w h =
      let (a, ea, f) = one_part (encode_exprs args) _ w h in
      ap decode_expr (sym f) ∙ rw (decode_exprs-encode_exprs args a ea) refl
  decode_expr-encode_expr (in_expr l negated r) w h =
      let (a, b, ea, eb, f) = two_parts (encode_expr l) (encode_exprs r) _ w h in
      ap decode_expr (sym f)
      ∙ rw (decode_expr-encode_expr l a ea, decode_exprs-encode_exprs r b eb) refl

  pub decode_exprs-encode_exprs :
      (es : Exprs) (ws : WireExprs)
      → encode_exprs es ≡ some ws
      → decode_exprs ws ≡ some (kept_exprs es)
  decode_exprs-encode_exprs no_exprs ws h = ap decode_exprs (sym (some_inj.0 h))
  decode_exprs-encode_exprs (expr e es) ws h =
      let (a, b, ea, eb, f) = two_parts (encode_expr e) (encode_exprs es) _ ws h in
      ap decode_exprs (sym f)
      ∙ rw (decode_expr-encode_expr e a ea, decode_exprs-encode_exprs es b eb) refl

mutual
  unfolding encode_expr kept_expr

  -- What is kept is written like the expression.
  pub encode_expr-kept_expr : (e : Expr) → encode_expr (kept_expr e) ≡ encode_expr e
  encode_expr-kept_expr nil_expr = refl
  encode_expr-kept_expr (value p v) = refl
  encode_expr-kept_expr (column_ref n t) = refl
  encode_expr-kept_expr (param_ref i) = refl
  encode_expr-kept_expr other_expr = refl
  encode_expr-kept_expr (binary_expr l op r) =
      rw (encode_expr-kept_expr l, encode_expr-kept_expr r) refl
  encode_expr-kept_expr (and_expr l r) = rw (encode_expr-kept_expr l, encode_expr-kept_expr r) refl
  encode_expr-kept_expr (or_expr l r) = rw (encode_expr-kept_expr l, encode_expr-kept_expr r) refl
  encode_expr-kept_expr (not_expr e) = rw (encode_expr-kept_expr e) refl
  encode_expr-kept_expr (function_call n args) = rw (encode_exprs-kept_exprs args) refl
  encode_expr-kept_expr (in_expr l negated r) =
      rw (encode_expr-kept_expr l, encode_exprs-kept_exprs r) refl

  pub encode_exprs-kept_exprs : (es : Exprs) → encode_exprs (kept_exprs es) ≡ encode_exprs es
  encode_exprs-kept_exprs no_exprs = refl
  encode_exprs-kept_exprs (expr e es) =
      rw (encode_expr-kept_expr e, encode_exprs-kept_exprs es) refl
