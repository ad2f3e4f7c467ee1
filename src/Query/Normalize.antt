-- ===== src/Query/Normalize.antt =====
-- query/normalize.go: negations go down to the terms, and the expression becomes a disjunction of
-- conjunctions. `Paren.Normalize` calls itself on an inverted copy of its nested expression, so the
-- calls take fuel, one for each parenthesis that is entered.
pub mod Meaning
pub mod Inverse
pub mod Negation
pub mod Sound
use arkiv_storage_service.Base.{
  ℕ, zero, suc, ◌+◌, max, ◌≡◌, refl, Bool, true, false, not, xor, ◌||◌, List, [], ◌∷◌, ◌++◌, map,
  foldl, Option, none, some, if◌then◌else◌, Result, ok, fail, panic, out_of_fuel, ◌>>=◌,
}
use arkiv_storage_service.Bytes.{Bytes, codes, beq}
use arkiv_storage_service.Query.Language.{
  Value, string, number, Values, Comparison, Equality, Inclusion, GlobExpr, Term, assign, inclusion,
  less_than, less_or_equal_than, greater_than, greater_or_equal_than, glob, OrExpression,
  or_expression, OrRights, or_nil, or_rhs, AndExpression, and_expression, AndRights, and_nil,
  and_rhs, EqualExpr, paren, term, Expression, TopLevel, AstAnd, AstOr, Ast,
}

-- the vars whose values are compared in lower case
unfoldable pub is_hex_var : Bytes → Bool
unfolding beq
is_hex_var var = beq var (codes "$key") || beq var (codes "$owner") || beq var (codes "$creator")

-- `invert` of the terms
unfoldable pub invert_term : Term → Term
invert_term (less_than c) = greater_or_equal_than c
invert_term (less_or_equal_than c) = greater_than c
invert_term (greater_than c) = less_or_equal_than c
invert_term (greater_or_equal_than c) = less_than c
invert_term (glob g) = glob (record g { is_not = not g.is_not })
invert_term (assign e) = assign (record e { is_not = not e.is_not })
invert_term (inclusion i) = inclusion (record i { is_not = not i.is_not })

-- `EqualExpr.invert`, with `Paren.invert`
unfoldable pub invert_equal : EqualExpr → EqualExpr
unfolding invert_term
invert_equal (paren is_not nested) = paren (not is_not) nested
invert_equal (term t) = term (invert_term t)

-- the loop of `AndExpression.invert`, with `AndRHS.invert`
unfoldable pub invert_and_rights : AndRights → OrRights
unfolding invert_equal
invert_and_rights and_nil = or_nil
invert_and_rights (and_rhs e rest) =
    or_rhs (and_expression (invert_equal e) and_nil) (invert_and_rights rest)

-- `AndExpression.invert`
unfoldable pub invert_and : AndExpression → OrExpression
unfolding invert_and_rights
invert_and (and_expression left right) =
    or_expression (and_expression (invert_equal left) and_nil) (invert_and_rights right)

-- the loop of `OrExpression.invert`, with `OrRHS.invert`
unfoldable pub invert_or_rights : OrRights → AndRights
unfolding invert_and
invert_or_rights or_nil = and_nil
invert_or_rights (or_rhs e rest) = and_rhs (paren false (invert_and e)) (invert_or_rights rest)

-- `OrExpression.invert`
unfoldable pub invert_or : OrExpression → AndExpression
unfolding invert_or_rights
invert_or (or_expression left right) =
    and_expression (paren false (invert_and left)) (invert_or_rights right)

-- the test on `newLeft.Right` and what follows it in `Expression.invert`
unfoldable pub unwrap_inverted : AndExpression → Result Expression
unwrap_inverted (and_expression (paren is_not nested) and_nil) = ok nested
unwrap_inverted (and_expression (term t) and_nil) = fail (panic "This should never happen!")
unwrap_inverted (and_expression left (and_rhs e rest)) =
    ok (or_expression (and_expression left (and_rhs e rest)) or_nil)

-- `Expression.invert`
unfoldable pub invert : Expression → Result Expression
unfolding invert_or unwrap_inverted
invert e = unwrap_inverted (invert_or e)

-- one conjunction against every disjunct
unfoldable pub combine_one : AstAnd → AstOr → AstOr
combine_one conjunction [] = []
combine_one conjunction (t ∷ ts) = (conjunction ++ t) ∷ combine_one conjunction ts

-- one round of the second loop: `tmpAst`
unfoldable pub combine : AstOr → AstOr → AstOr
unfolding combine_one
combine [] disjunctions = []
combine (conjunction ∷ ast) disjunctions =
    combine_one conjunction disjunctions ++ combine ast disjunctions

-- The nested calls of `Normalize` are handed in as `rec`; `to_lower` is `strings.ToLower`, whose
-- Unicode tables are not part of the repository.
module _ (to_lower : Bytes → Bytes) where
  -- `strings.ToLower(*e.Value.String)`: a nil dereference where the value is a number
  unfoldable pub lower_value : Value → Result Value
  lower_value (string s) = ok (string (to_lower s))
  lower_value (number n) = fail (panic "nil pointer dereference")

  -- `LessThan.Normalize`, and the same for the three other comparisons
  unfoldable pub normalize_comparison : Comparison → Result Comparison
  unfolding lower_value is_hex_var
  normalize_comparison e =
      if is_hex_var e.var
      then (do val ← lower_value e.value; ok (record { var = e.var; value = val }))
      else ok e

  unfoldable pub normalize_equality : Equality → Result Equality
  unfolding lower_value is_hex_var
  normalize_equality e =
      if is_hex_var e.var
      then (do
        val ← lower_value e.value
        ok (record { var = e.var; is_not = e.is_not; value = val }))
      else ok e

  unfoldable pub normalize_inclusion : Inclusion → Inclusion
  unfolding is_hex_var
  normalize_inclusion e =
      if is_hex_var e.var
      then record {
        var = e.var;
        is_not = e.is_not;
        values = record { strings = map to_lower e.values.strings; numbers = [] };
      }
      else e

  -- `EqualExpr.Normalize`, of a term
  unfoldable pub normalize_term : Term → Result Term
  unfolding normalize_comparison normalize_equality normalize_inclusion
  normalize_term (less_than c) = do c' ← normalize_comparison c; ok (less_than c')
  normalize_term (less_or_equal_than c) = do c' ← normalize_comparison c; ok (less_or_equal_than c')
  normalize_term (greater_than c) = do c' ← normalize_comparison c; ok (greater_than c')
  normalize_term (greater_or_equal_than c) = do
    c' ← normalize_comparison c
    ok (greater_or_equal_than c')
  normalize_term (glob g) = ok (glob g)
  normalize_term (assign e) = do e' ← normalize_equality e; ok (assign e')
  normalize_term (inclusion i) = ok (inclusion (normalize_inclusion i))

  module _ (rec : Expression → Result AstOr) where
    -- `Paren.Normalize`
    unfoldable pub normalize_paren : Bool → Expression → Result AstOr
    unfolding invert
    normalize_paren true nested = do inverted ← invert nested; rec inverted
    normalize_paren false nested = rec nested

    -- `EqualExpr.convertToTerms`
    unfoldable pub convert_to_terms : EqualExpr → Result AstOr
    unfolding normalize_paren normalize_term
    convert_to_terms (paren is_not nested) = normalize_paren is_not nested
    convert_to_terms (term t) = do t' ← normalize_term t; ok ((t' ∷ []) ∷ [])

    -- the first loop of `AndExpression.Normalize`
    unfoldable pub convert_rights : AndRights → Result (List AstOr)
    unfolding convert_to_terms
    convert_rights and_nil = ok []
    convert_rights (and_rhs e rest) = do
      terms ← convert_to_terms e
      others ← convert_rights rest
      ok (terms ∷ others)

  module _ (rec : Expression → Result AstOr) where
    -- `AndExpression.Normalize`
    unfoldable pub normalize_and : AndExpression → Result AstOr
    unfolding convert_rights combine
    normalize_and (and_expression left right) = do
      first ← convert_to_terms rec left
      others ← convert_rights rec right
      ok (foldl combine ([] ∷ []) (first ∷ others))

    unfoldable pub normalize_or_rights : OrRights → Result AstOr
    unfolding normalize_and
    normalize_or_rights or_nil = ok []
    normalize_or_rights (or_rhs e rest) = do
      terms ← normalize_and e
      others ← normalize_or_rights rest
      ok (terms ++ others)

    -- `OrExpression.Normalize`
    unfoldable pub normalize_or : OrExpression → Result AstOr
    unfolding normalize_or_rights
    normalize_or (or_expression left right) = do
      terms ← normalize_and left
      others ← normalize_or_rights right
      ok (terms ++ others)

  -- `Expression.Normalize`, with fuel for the parentheses that it enters
  unfoldable pub normalize_fuel : ℕ → Expression → Result AstOr
  unfolding normalize_or
  normalize_fuel zero e = fail out_of_fuel
  normalize_fuel (suc fuel) e = normalize_or (normalize_fuel fuel) e

-- How many parentheses `Normalize` enters, one inside another: of an expression as it stands, or
-- (`true`) of its inverse. A negated parenthesis is entered through the inverse, which adds one.
unfoldable mutual
  pub need_or : Bool → OrExpression → ℕ
  need_or neg (or_expression left right) = max (need_and neg left) (need_or_rights neg right)

  pub need_or_rights : Bool → OrRights → ℕ
  need_or_rights neg or_nil = 0
  need_or_rights neg (or_rhs e rest) = max (need_and neg e) (need_or_rights neg rest)

  pub need_and : Bool → AndExpression → ℕ
  need_and neg (and_expression left right) = max (need_equal neg left) (need_and_rights neg right)

  pub need_and_rights : Bool → AndRights → ℕ
  need_and_rights neg and_nil = 0
  need_and_rights neg (and_rhs e rest) = max (need_equal neg e) (need_and_rights neg rest)

  pub need_equal : Bool → EqualExpr → ℕ
  need_equal neg (term t) = 0
  need_equal true (paren true nested) = 1 + need_or false nested
  need_equal true (paren false nested) = 2 + need_or true nested
  need_equal false (paren true nested) = 2 + need_or true nested
  need_equal false (paren false nested) = 1 + need_or false nested

-- `Expression.Normalize`, with the fuel that it needs
unfoldable pub normalize_expression : (Bytes → Bytes) → Expression → Result AstOr
unfolding normalize_fuel need_or
normalize_expression to_lower e = normalize_fuel to_lower (suc (need_or false e)) e

-- `TopLevel.Normalize`
unfoldable pub normalize : (Bytes → Bytes) → TopLevel → Result Ast
unfolding normalize_expression
normalize to_lower t = elim t.expression [
  | some e ↦ do ast ← normalize_expression to_lower e; ok (record { expr = some ast })
  | none ↦ ok (record { expr = none })
]
