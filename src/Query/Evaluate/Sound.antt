-- ===== src/Query/Evaluate/Sound.antt =====
-- The evaluation of a normal form, and of a query from its expression to the set of entities.
use arkiv_storage_service.Base.{
  ℕ, ◌≡◌, refl, sym, ap, ◌∙◌, Bool, true, false, not, ◌&&◌, ◌||◌, List, [], ◌∷◌, all, Result, ok,
  fail, ◌>>=◌, arith,
}
use arkiv_storage_service.Bytes.{Bytes}
use arkiv_storage_service.Roaring.{Roaring}
use arkiv_storage_service.Query.Language.{
  Term, OrExpression, or_expression, OrRights, or_nil, or_rhs, AndExpression, and_expression,
  AndRights, and_nil, and_rhs, EqualExpr, paren, term, Expression, AstOr,
}
use arkiv_storage_service.Query.Normalize.{normalize_term, invert_term, normalize_expression}
use arkiv_storage_service.Query.Normalize.Meaning.{
  holds, lowered, leaf, says, says_or, says_or_rights, says_and, says_and_rights, says_equal,
  EachOr, IsTyped,
}
use arkiv_storage_service.Query.Normalize.Negation.{IsComplement, negation, says-negation}
use arkiv_storage_service.Query.Normalize.Sound.{normalize_expression-Says}
use arkiv_storage_service.Query.Evaluate.{
  StoreQuerier, evaluate_term, and_rounds, evaluate_and, or_rounds, evaluate_or,
}

-- Whatever stands in an expression, it says nothing if its terms say nothing.
module _ (l : Bool → Term → Bool) (none_said : (neg : Bool) (t : Term) → l neg t ≡ false) where
  mutual
    unfolding says_or

    silent_or : (neg : Bool) (e : OrExpression) → says_or l neg e ≡ false
    silent_or true (or_expression a r) = ground (arith, silent_and true a)
    silent_or false (or_expression a r) = ground (arith, silent_and false a, silent_or_rights r)

    silent_or_rights : (r : OrRights) → says_or_rights l false r ≡ false
    silent_or_rights or_nil = refl
    silent_or_rights (or_rhs a r) = ground (arith, silent_and false a, silent_or_rights r)

    silent_and : (neg : Bool) (a : AndExpression) → says_and l neg a ≡ false
    silent_and true (and_expression e r) = ground (arith, silent_equal true e, silent_and_rights r)
    silent_and false (and_expression e r) = ground (arith, silent_equal false e)

    silent_and_rights : (r : AndRights) → says_and_rights l true r ≡ false
    silent_and_rights and_nil = refl
    silent_and_rights (and_rhs e r) = ground (arith, silent_equal true e, silent_and_rights r)

    silent_equal : (neg : Bool) (e : EqualExpr) → says_equal l neg e ≡ false
    silent_equal neg (term t) = none_said neg t
    silent_equal true (paren true n) = silent_or false n
    silent_equal true (paren false n) = silent_or true n
    silent_equal false (paren true n) = silent_or true n
    silent_equal false (paren false n) = silent_or false n

lowered-false : (r : Result Term) → lowered (λ t. false) r ≡ false
lowered-false (ok t) = refl
lowered-false (fail e) = refl

leaf-false :
    (to_lower : Bytes → Bytes) (neg : Bool) (t : Term) → leaf to_lower (λ t. false) neg t ≡ false
leaf-false to_lower true t = lowered-false (normalize_term to_lower (invert_term t))
leaf-false to_lower false t = lowered-false (normalize_term to_lower t)

module _ (R : Roaring) (q : StoreQuerier R) (at : ℕ) where
  -- the entities of an evaluated term
  abbrev pub member : Result R.Bitmap → ℕ → Bool
  member (ok b) i = R.contains b i
  member (fail e) i = false

  abbrev pub answers : ℕ → Term → Bool
  answers i t = member (evaluate_term R q at t) i

  module _ (total : (t : Term) → (b : R.Bitmap) × (evaluate_term R q at t ≡ ok b)) where
    and_rounds-lem :
        (acc : R.Bitmap) (ts : List Term)
        → (b : R.Bitmap) × (and_rounds R q at acc ts ≡ ok b)
          × ((i : ℕ) → R.contains b i ≡ (R.contains acc i && all (answers i) ts))
    unfolding and_rounds
    and_rounds-lem acc [] = (acc, refl, λ i. ground arith)
    and_rounds-lem acc (t ∷ ts) =
        let (bm, p) = total t in
        let (b, u, n) = and_rounds-lem (R.and acc bm) ts in
        (b, rw p u, λ i. rw p (ground (arith, n i, R.contains-and acc bm i)))

    -- A conjunction with a term.
    evaluate_and-lem :
        (t : Term) (ts : List Term)
        → (b : R.Bitmap) × (evaluate_and R q at (t ∷ ts) ≡ ok b)
          × ((i : ℕ) → R.contains b i ≡ all (answers i) (t ∷ ts))
    unfolding evaluate_and
    evaluate_and-lem t ts =
        let (bm, p) = total t in
        let (b, u, n) = and_rounds-lem bm ts in (b, rw p u, λ i. rw p (n i))

    or_rounds-lem :
        (acc : R.Bitmap) (cs : AstOr)
        → holds (λ t. false) cs ≡ false
        → (b : R.Bitmap) × (or_rounds R q at acc cs ≡ ok b)
          × ((i : ℕ) → R.contains b i ≡ (R.contains acc i || holds (answers i) cs))
    unfolding or_rounds
    or_rounds-lem acc [] h = (acc, refl, λ i. ground arith)
    or_rounds-lem acc ([] ∷ cs) h = cc
    or_rounds-lem acc ((t ∷ ts) ∷ cs) h =
        let (bm, p, m) = evaluate_and-lem t ts in
        let (b, u, n) = or_rounds-lem (R.or acc bm) cs h in
        (b, rw p u, λ i. ground (arith, m i, n i, R.contains-or acc bm i))

    -- For a query that compares `$key`, `$owner` and `$creator` with strings only, over a store
    -- that evaluates terms without an error: it normalises and evaluates, and an entity is in the
    -- result exactly when the query says so of it, where a term says whether the entity is in the
    -- term's bitmap, and a negated term, whether it is in that of the inverse term.
    pub evaluate_or-says :
        (to_lower : Bytes → Bytes) (e : Expression)
        → EachOr IsTyped e
        → (b : R.Bitmap) × ((normalize_expression to_lower e >>= evaluate_or R q at) ≡ ok b)
          × ((i : ℕ) → R.contains b i ≡ says to_lower (answers i) e)
    unfolding evaluate_or
    evaluate_or-says to_lower e typed =
        let (ast, p, m) = normalize_expression-Says to_lower e typed in
        let silent = silent_or (leaf to_lower (λ t. false)) (leaf-false to_lower) false e in
        let (b, u, n) = or_rounds-lem R.empty ast (m (λ t. false) ∙ silent) in
        (b, rw p u, λ i. n i ∙ (rw (R.contains-empty i) (m (answers i))))

    -- If the inverse of each term of a query has, for entity `i`, the opposite answer of the term,
    -- then the query and `NOT (…)` around it both evaluate, and `i` is in the one result exactly
    -- when it is not in the other.
    pub evaluate_or-negation :
        (to_lower : Bytes → Bytes) (e : Expression) (i : ℕ)
        → EachOr IsTyped e
        → EachOr (IsComplement (leaf to_lower (answers i))) e
        → (b b' : R.Bitmap) × ((normalize_expression to_lower e >>= evaluate_or R q at) ≡ ok b)
          × ((normalize_expression to_lower (negation e) >>= evaluate_or R q at) ≡ ok b')
          × (R.contains b' i ≡ not (R.contains b i))
    unfolding EachOr
    evaluate_or-negation to_lower e i typed opposite =
        let (b, p, m) = evaluate_or-says to_lower e typed in
        let (b', p', m') = evaluate_or-says to_lower (negation e) ((typed, tt), tt) in
        (
          b,
          b',
          p,
          p',
          m' i ∙ (says-negation (leaf to_lower (answers i)) e opposite ∙ ap not (sym (m i))),
        )
