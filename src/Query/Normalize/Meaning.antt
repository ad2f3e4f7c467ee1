-- ===== src/Query/Normalize/Meaning.antt =====
-- What a query expression means, with no normal form in it: negations turn `||` into `&&` and
-- reach the terms, where a negated term stands for its inverse.
use arkiv_storage_service.Base.{Bool, true, false, not, ◌&&◌, ◌||◌, ◌≡◌, any, all, Result, ok, fail}
use arkiv_storage_service.Bytes.{Bytes}
use arkiv_storage_service.Query.Language.{
  Value, string, number, Term, assign, inclusion, less_than, less_or_equal_than, greater_than,
  greater_or_equal_than, glob, OrExpression, or_expression, OrRights, or_nil, or_rhs, AndExpression,
  and_expression, AndRights, and_nil, and_rhs, EqualExpr, paren, term, Expression, AstOr,
}
use arkiv_storage_service.Query.Normalize.{is_hex_var, invert_term, normalize_term}

-- a valuation of terms, extended to a normal form
abbrev pub holds : (Term → Bool) → AstOr → Bool
holds v = any (all v)

-- `leaf neg t` is the truth of `t`, or with `neg` that of its negation.
unfoldable mutual
  pub says_or : (Bool → Term → Bool) → Bool → OrExpression → Bool
  says_or leaf true (or_expression left right) =
      says_and leaf true left && says_or_rights leaf true right
  says_or leaf false (or_expression left right) =
      says_and leaf false left || says_or_rights leaf false right

  pub says_or_rights : (Bool → Term → Bool) → Bool → OrRights → Bool
  says_or_rights leaf neg or_nil = neg
  says_or_rights leaf true (or_rhs e rest) = says_and leaf true e && says_or_rights leaf true rest
  says_or_rights leaf false (or_rhs e rest) =
      says_and leaf false e || says_or_rights leaf false rest

  pub says_and : (Bool → Term → Bool) → Bool → AndExpression → Bool
  says_and leaf true (and_expression left right) =
      says_equal leaf true left || says_and_rights leaf true right
  says_and leaf false (and_expression left right) =
      says_equal leaf false left && says_and_rights leaf false right

  pub says_and_rights : (Bool → Term → Bool) → Bool → AndRights → Bool
  says_and_rights leaf neg and_nil = not neg
  says_and_rights leaf true (and_rhs e rest) =
      says_equal leaf true e || says_and_rights leaf true rest
  says_and_rights leaf false (and_rhs e rest) =
      says_equal leaf false e && says_and_rights leaf false rest

  pub says_equal : (Bool → Term → Bool) → Bool → EqualExpr → Bool
  says_equal leaf neg (term t) = leaf neg t
  says_equal leaf neg (paren true nested) = says_or leaf (not neg) nested
  says_equal leaf neg (paren false nested) = says_or leaf neg nested

-- the truth of a term once its values are in lower case
abbrev pub lowered : (Term → Bool) → Result Term → Bool
lowered v (ok t) = v t
lowered v (fail e) = false

module _ (to_lower : Bytes → Bytes) where
  abbrev pub leaf : (Term → Bool) → Bool → Term → Bool
  leaf v true t = lowered v (normalize_term to_lower (invert_term t))
  leaf v false t = lowered v (normalize_term to_lower t)

  -- the meaning of a query under a valuation of normalised terms
  abbrev pub says : (Term → Bool) → Expression → Bool
  says v e = says_or (leaf v) false e

-- `P` holds of every term of the expression.
unfoldable mutual
  pub EachOr : (Term → Type 0) → OrExpression → Type 0
  EachOr P (or_expression left right) = EachAnd P left × EachOrRights P right

  pub EachOrRights : (Term → Type 0) → OrRights → Type 0
  EachOrRights P or_nil = Unit
  EachOrRights P (or_rhs e rest) = EachAnd P e × EachOrRights P rest

  pub EachAnd : (Term → Type 0) → AndExpression → Type 0
  EachAnd P (and_expression left right) = EachEqual P left × EachAndRights P right

  pub EachAndRights : (Term → Type 0) → AndRights → Type 0
  EachAndRights P and_nil = Unit
  EachAndRights P (and_rhs e rest) = EachEqual P e × EachAndRights P rest

  pub EachEqual : (Term → Type 0) → EqualExpr → Type 0
  EachEqual P (term t) = P t
  EachEqual P (paren is_not nested) = EachOr P nested

-- `$key`, `$owner` and `$creator` are compared with strings only.
abbrev pub IsString : Value → Type 0
IsString (string s) = Unit
IsString (number n) = ⊥

abbrev pub IsTyped : Term → Type 0
IsTyped (assign e) = is_hex_var e.var ≡ true → IsString e.value
IsTyped (less_than c) = is_hex_var c.var ≡ true → IsString c.value
IsTyped (less_or_equal_than c) = is_hex_var c.var ≡ true → IsString c.value
IsTyped (greater_than c) = is_hex_var c.var ≡ true → IsString c.value
IsTyped (greater_or_equal_than c) = is_hex_var c.var ≡ true → IsString c.value
IsTyped (inclusion i) = Unit
IsTyped (glob g) = Unit
