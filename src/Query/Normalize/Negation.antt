-- ===== src/Query/Normalize/Negation.antt =====
-- When a negated parenthesis is the complement of what stands in it.
use arkiv_storage_service.Base.{◌≡◌, refl, Bool, true, false, not, arith}
use arkiv_storage_service.Query.Language.{
  Term, OrExpression, or_expression, OrRights, or_nil, or_rhs, AndExpression, and_expression,
  AndRights, and_nil, and_rhs, EqualExpr, paren, term, Expression,
}
use arkiv_storage_service.Query.Normalize.Meaning.{
  says_or, says_or_rights, says_and, says_and_rights, says_equal, EachOr, EachOrRights, EachAnd,
  EachAndRights, EachEqual,
}

-- `NOT (e)` as a whole query
abbrev pub negation : Expression → Expression
negation e = or_expression (and_expression (paren true e) and_nil) or_nil

-- The inverse of a term is its complement.
abbrev pub IsComplement : (Bool → Term → Bool) → Term → Type 0
IsComplement l t = l true t ≡ not (l false t)

module _ (l : Bool → Term → Bool) where
  mutual
    unfolding says_or EachOr

    complement_or :
        (e : OrExpression) → EachOr (IsComplement l) e → says_or l true e ≡ not (says_or l false e)
    complement_or (or_expression a r) h =
        ground (arith, complement_and a h.0, complement_or_rights r h.1)

    complement_or_rights :
        (r : OrRights)
        → EachOrRights (IsComplement l) r
        → says_or_rights l true r ≡ not (says_or_rights l false r)
    complement_or_rights or_nil h = refl
    complement_or_rights (or_rhs a r) h =
        ground (arith, complement_and a h.0, complement_or_rights r h.1)

    complement_and :
        (a : AndExpression)
        → EachAnd (IsComplement l) a
        → says_and l true a ≡ not (says_and l false a)
    complement_and (and_expression e r) h =
        ground (arith, complement_equal e h.0, complement_and_rights r h.1)

    complement_and_rights :
        (r : AndRights)
        → EachAndRights (IsComplement l) r
        → says_and_rights l true r ≡ not (says_and_rights l false r)
    complement_and_rights and_nil h = refl
    complement_and_rights (and_rhs e r) h =
        ground (arith, complement_equal e h.0, complement_and_rights r h.1)

    complement_equal :
        (e : EqualExpr)
        → EachEqual (IsComplement l) e
        → says_equal l true e ≡ not (says_equal l false e)
    complement_equal (term t) h = h
    complement_equal (paren true n) h = ground (arith, complement_or n h)
    complement_equal (paren false n) h = complement_or n h

  pub says-negation :
      (e : Expression)
      → EachOr (IsComplement l) e
      → says_or l false (negation e) ≡ not (says_or l false e)
  unfolding says_or
  says-negation e h = ground (arith, complement_or e h)
