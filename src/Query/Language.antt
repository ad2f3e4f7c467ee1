-- ===== src/Query/Language.antt =====
-- query/language.go, the tree that the parser builds, and the normal form of query/normalize.go.
-- The parser is built by a third-party library from the grammar in the struct tags; its result is
-- the input of the model. A struct with one pointer set out of several is a data type with a
-- constructor for each.
use arkiv_storage_service.Base.{ℕ, Bool, List, Option}
use arkiv_storage_service.Bytes.{Bytes}

-- `Value`: a string, an entity key or an address; or a number
pub data Value : Type 0 where
  string : Bytes → Value
  number : ℕ → Value

pub record Values : Type 0 where
  pub strings : List Bytes
  pub numbers : List ℕ

-- `LessThan`, `LessOrEqualThan`, `GreaterThan` and `GreaterOrEqualThan` have the same two fields.
pub record Comparison : Type 0 where
  pub var : Bytes
  pub value : Value

pub record Equality : Type 0 where
  pub var : Bytes
  pub is_not : Bool
  pub value : Value

pub record Inclusion : Type 0 where
  pub var : Bytes
  pub is_not : Bool
  pub values : Values

pub record GlobExpr : Type 0 where
  pub var : Bytes
  pub is_not : Bool
  pub value : Bytes

-- `ASTTerm`, and the alternatives of `EqualExpr` other than a parenthesis
pub data Term : Type 0 where
  assign : Equality → Term
  inclusion : Inclusion → Term
  less_than : Comparison → Term
  less_or_equal_than : Comparison → Term
  greater_than : Comparison → Term
  greater_or_equal_than : Comparison → Term
  glob : GlobExpr → Term

-- `Expression` is a struct around one `OrExpression`, and is the same type here. The slices `Right`
-- are lists of the block.
mutual
  pub data OrExpression : Type 0 where
    or_expression : AndExpression → OrRights → OrExpression

  pub data OrRights : Type 0 where
    or_nil : OrRights
    or_rhs : AndExpression → OrRights → OrRights

  pub data AndExpression : Type 0 where
    and_expression : EqualExpr → AndRights → AndExpression

  pub data AndRights : Type 0 where
    and_nil : AndRights
    and_rhs : EqualExpr → AndRights → AndRights

  -- `paren is_not nested` is a `Paren`.
  pub data EqualExpr : Type 0 where
    paren : Bool → OrExpression → EqualExpr
    term : Term → EqualExpr

abbrev pub Expression : Type 0
Expression = OrExpression

-- `none` for `*` and `$all`
pub record TopLevel : Type 0 where
  pub expression : Option Expression

-- A disjunction of conjunctions of terms.
abbrev pub AstAnd : Type 0
AstAnd = List Term

abbrev pub AstOr : Type 0
AstOr = List AstAnd

pub record Ast : Type 0 where
  pub expr : Option AstOr
