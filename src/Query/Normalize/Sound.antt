-- ===== src/Query/Normalize/Sound.antt =====
-- The normal form exists and says what the expression says.
use arkiv_storage_service.Base.{
  ℕ, zero, suc, ◌≤◌, ◌<◌, ◌≡◌, refl, ◌∙◌, Bool, true, false, ◌&&◌, List, [], ◌∷◌, ◌++◌, foldl, any,
  all, any-append, all-append, Bool-cases, inl, inr, Result, ok, arith,
}
use arkiv_storage_service.Bytes.{Bytes}
use arkiv_storage_service.Query.Language.{
  Value, string, number, Comparison, Equality, Term, assign, inclusion, less_than,
  less_or_equal_than, greater_than, greater_or_equal_than, glob, OrExpression, or_expression,
  OrRights, or_nil, or_rhs, AndExpression, and_expression, AndRights, and_nil, and_rhs, EqualExpr,
  paren, term, Expression, AstAnd, AstOr,
}
use arkiv_storage_service.Query.Normalize.{
  is_hex_var, lower_value, normalize_comparison, normalize_equality, normalize_term,
  normalize_paren, convert_to_terms, convert_rights, combine_one, combine, normalize_and,
  normalize_or_rights, normalize_or, normalize_fuel, normalize_expression,
}
use arkiv_storage_service.Query.Normalize.{
  need_or, need_and, need_or_rights, need_and_rights, need_equal,
}
use arkiv_storage_service.Query.Normalize.Meaning.{
  holds, leaf, says, says_or, says_or_rights, says_and, says_and_rights, says_equal, EachOr,
  EachOrRights, EachAnd, EachAndRights, EachEqual, IsString, IsTyped,
}
use arkiv_storage_service.Query.Normalize.Inverse.{
  need-invert, invert_total, says-invert, invert-IsTyped,
}

module _ (v : Term → Bool) where
  holds-combine_one :
      (c : AstAnd) (ds : AstOr) → holds v (combine_one c ds) ≡ (all v c && holds v ds)
  unfolding combine_one
  holds-combine_one c [] = ground arith
  holds-combine_one c (d ∷ ds) = ground (arith, all-append v c d, holds-combine_one c ds)

  holds-combine : (ast ds : AstOr) → holds v (combine ast ds) ≡ (holds v ast && holds v ds)
  unfolding combine
  holds-combine [] ds = refl
  holds-combine (c ∷ ast) ds = ground (
    arith,
    any-append (all v) (combine_one c ds) (combine ast ds),
    holds-combine_one c ds,
    holds-combine ast ds,
  )

  -- Multiplying out the converted operands is their conjunction.
  holds-foldl :
      (ast : AstOr) (xs : List AstOr)
      → holds v (foldl combine ast xs) ≡ (holds v ast && all (holds v) xs)
  holds-foldl ast [] = ground arith
  holds-foldl ast (x ∷ xs) = ground (arith, holds-foldl (combine ast x) xs, holds-combine ast x)

-- A result and what it says under every valuation.
abbrev Says : Result AstOr → ((Term → Bool) → Bool) → Type 0
Says r m = (ast : AstOr) × (r ≡ ok ast) × ((v : Term → Bool) → holds v ast ≡ m v)

module _ (to_lower : Bytes → Bytes) where
  lower_value_total : (x : Value) → IsString x → (y : Value) × (lower_value to_lower x ≡ ok y)
  unfolding lower_value
  lower_value_total (string s) h = (string (to_lower s), refl)
  lower_value_total (number n) h = absurd h

  comparison_total :
      (c : Comparison)
      → (is_hex_var c.var ≡ true → IsString c.value)
      → (c' : Comparison) × (normalize_comparison to_lower c ≡ ok c')
  unfolding normalize_comparison
  comparison_total c h = elim (Bool-cases (is_hex_var c.var)) [
    | inl e ↦
        let (y, p) = lower_value_total c.value (h e) in
        (record { var = c.var; value = y }, rw (e, p))
    | inr e ↦ (c, rw e)
  ]

  equality_total :
      (c : Equality)
      → (is_hex_var c.var ≡ true → IsString c.value)
      → (c' : Equality) × (normalize_equality to_lower c ≡ ok c')
  unfolding normalize_equality
  equality_total c h = elim (Bool-cases (is_hex_var c.var)) [
    | inl e ↦
        let (y, p) = lower_value_total c.value (h e) in
        (record { var = c.var; is_not = c.is_not; value = y }, rw (e, p))
    | inr e ↦ (c, rw e)
  ]

  term_total : (t : Term) → IsTyped t → (t' : Term) × (normalize_term to_lower t ≡ ok t')
  unfolding normalize_term
  term_total (assign e) h = let (e', p) = equality_total e h in (assign e', rw p)
  term_total (inclusion i) h = (_, refl)
  term_total (less_than c) h = let (c', p) = comparison_total c h in (less_than c', rw p)
  term_total (less_or_equal_than c) h =
      let (c', p) = comparison_total c h in (less_or_equal_than c', rw p)
  term_total (greater_than c) h = let (c', p) = comparison_total c h in (greater_than c', rw p)
  term_total (greater_or_equal_than c) h =
      let (c', p) = comparison_total c h in (greater_or_equal_than c', rw p)
  term_total (glob g) h = (glob g, refl)

  -- With fuel `f` for the nested expressions, which say what they should.
  module _ (f : ℕ)
      (ih : (e : Expression)
        → EachOr IsTyped e
        → need_or false e < f
        → Says (normalize_fuel to_lower f e) (λ v. says to_lower v e)) where
    abbrev rec : Expression → Result AstOr
    rec = normalize_fuel to_lower f

    paren-Says :
        (b : Bool) (n : Expression)
        → EachOr IsTyped n
        → need_equal false (paren b n) ≤ f
        → Says
            (normalize_paren to_lower rec b n)
            (λ v. says_equal (leaf to_lower v) false (paren b n))
    unfolding normalize_paren need_or says_or
    paren-Says false n typed h = ih n typed (omega arith)
    paren-Says true n typed h =
        let (n', p) = invert_total n in
        let (ast, q, says_n') = ih n' (invert-IsTyped n p typed) (omega (arith, need-invert n p)) in
        (ast, rw p q, λ v. says_n' v ∙ says-invert (leaf to_lower v) (λ t. refl) n p)

    convert-Says :
        (e : EqualExpr)
        → EachEqual IsTyped e
        → need_equal false e ≤ f
        → Says (convert_to_terms to_lower rec e) (λ v. says_equal (leaf to_lower v) false e)
    unfolding convert_to_terms EachOr says_or
    convert-Says (paren b n) typed h = paren-Says b n typed h
    convert-Says (term t) typed h =
        let (t', p) = term_total t typed in ((t' ∷ []) ∷ [], rw p, λ v. rw p (ground arith))

    rights-Says :
        (r : AndRights)
        → EachAndRights IsTyped r
        → need_and_rights false r ≤ f
        → (xs : List AstOr) × (convert_rights to_lower rec r ≡ ok xs)
          × ((v : Term → Bool) → all (holds v) xs ≡ says_and_rights (leaf to_lower v) false r)
    unfolding convert_rights EachOr need_or says_or
    rights-Says and_nil typed h = ([], refl, λ v. refl)
    rights-Says (and_rhs e r) typed h =
        let (ast, p, says_e) = convert-Says e typed.0 (omega arith) in
        let (xs, q, says_r) = rights-Says r typed.1 (omega arith) in
        (ast ∷ xs, rw (p, q), λ v. ground (arith, says_e v, says_r v))

    and-Says :
        (a : AndExpression)
        → EachAnd IsTyped a
        → need_and false a ≤ f
        → Says (normalize_and to_lower rec a) (λ v. says_and (leaf to_lower v) false a)
    unfolding normalize_and EachOr need_or says_or
    and-Says (and_expression e r) typed h =
        let (ast, p, says_e) = convert-Says e typed.0 (omega arith) in
        let (xs, q, says_r) = rights-Says r typed.1 (omega arith) in
        (
          foldl combine ([] ∷ []) (ast ∷ xs),
          rw (p, q),
          λ v. ground (arith, holds-foldl v ([] ∷ []) (ast ∷ xs), says_e v, says_r v),
        )

    or_rights-Says :
        (r : OrRights)
        → EachOrRights IsTyped r
        → need_or_rights false r ≤ f
        → Says (normalize_or_rights to_lower rec r) (λ v. says_or_rights (leaf to_lower v) false r)
    unfolding normalize_or_rights EachOr need_or says_or
    or_rights-Says or_nil typed h = ([], refl, λ v. refl)
    or_rights-Says (or_rhs e r) typed h =
        let (ast, p, says_e) = and-Says e typed.0 (omega arith) in
        let (ast', q, says_r) = or_rights-Says r typed.1 (omega arith) in
        (
          ast ++ ast',
          rw (p, q),
          λ v. ground (arith, any-append (all v) ast ast', says_e v, says_r v),
        )

    or-Says :
        (e : OrExpression)
        → EachOr IsTyped e
        → need_or false e ≤ f
        → Says (normalize_or to_lower rec e) (λ v. says to_lower v e)
    unfolding normalize_or EachOr need_or says_or
    or-Says (or_expression l r) typed h =
        let (ast, p, says_e) = and-Says l typed.0 (omega arith) in
        let (ast', q, says_r) = or_rights-Says r typed.1 (omega arith) in
        (
          ast ++ ast',
          rw (p, q),
          λ v. ground (arith, any-append (all v) ast ast', says_e v, says_r v),
        )

  fuel-Says :
      (f : ℕ) (e : Expression)
      → EachOr IsTyped e
      → need_or false e < f
      → Says (normalize_fuel to_lower f e) (λ v. says to_lower v e)
  unfolding normalize_fuel
  fuel-Says zero e typed h = absurd (omega arith)
  fuel-Says (suc f) e typed h = or-Says f (fuel-Says f) e typed (omega arith)

  -- For a query that compares `$key`, `$owner` and `$creator` with strings only, the normaliser
  -- returns, without a panic and within its fuel, a disjunction of conjunctions; under every
  -- valuation of terms it holds exactly when the query does, negations taken at the terms.
  pub normalize_expression-Says :
      (e : Expression)
      → EachOr IsTyped e
      → (ast : AstOr) × (normalize_expression to_lower e ≡ ok ast)
        × ((v : Term → Bool) → any (all v) ast ≡ says to_lower v e)
  unfolding normalize_expression
  normalize_expression-Says e typed = fuel-Says (suc (need_or false e)) e typed (omega arith)
