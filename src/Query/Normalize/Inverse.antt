-- ===== src/Query/Normalize/Inverse.antt =====
-- `invert` succeeds, negates the meaning, and adds one level of parentheses at most.
use arkiv_storage_service.Base.{◌+◌, ◌≤◌, ◌≡◌, refl, subst, Bool, true, false, ok, arith}
use arkiv_storage_service.Query.Language.{
  Term, assign, inclusion, less_than, less_or_equal_than, greater_than, greater_or_equal_than, glob,
  or_expression, OrRights, or_nil, or_rhs, AndExpression, and_expression, AndRights, and_nil,
  and_rhs, EqualExpr, paren, term, Expression,
}
use arkiv_storage_service.Query.Normalize.{
  unwrap_inverted, invert_term, invert_equal, invert_and_rights, invert_and, invert_or_rights,
  invert_or, invert, need_or,
}
use arkiv_storage_service.Query.Normalize.{need_and, need_or_rights, need_and_rights, need_equal}
use arkiv_storage_service.Query.Normalize.Meaning.{
  says_or, says_or_rights, says_and, says_and_rights, says_equal, EachOr, EachOrRights, EachAnd,
  EachAndRights, EachEqual, IsTyped,
}

need-invert_equal : (e : EqualExpr) → need_equal false (invert_equal e) ≤ need_equal true e
unfolding need_or invert_equal
need-invert_equal (term t) = omega arith
need-invert_equal (paren true n) = omega arith
need-invert_equal (paren false n) = omega arith

need-invert_and_rights :
    (r : AndRights) → need_or_rights false (invert_and_rights r) ≤ need_and_rights true r
unfolding need_or invert_and_rights
need-invert_and_rights and_nil = omega arith
need-invert_and_rights (and_rhs e r) = omega (arith, need-invert_equal e, need-invert_and_rights r)

need-invert_and : (a : AndExpression) → need_or false (invert_and a) ≤ need_and true a
unfolding need_or invert_and
need-invert_and (and_expression e r) = omega (arith, need-invert_equal e, need-invert_and_rights r)

need-invert_or_rights :
    (r : OrRights) → need_and_rights false (invert_or_rights r) ≤ 1 + need_or_rights true r
unfolding need_or invert_or_rights
need-invert_or_rights or_nil = omega arith
need-invert_or_rights (or_rhs e r) = omega (arith, need-invert_and e, need-invert_or_rights r)

pub need-invert :
    (e : Expression) {e' : Expression} → invert e ≡ ok e' → need_or false e' ≤ 1 + need_or true e
unfolding need_or invert
need-invert (or_expression l or_nil) h = ground (arith, need-invert_and l)
need-invert (or_expression l (or_rhs e r)) h =
    ground (arith, need-invert_and l, need-invert_and e, need-invert_or_rights r)

-- The panic of `Expression.invert` is not reached.
pub invert_total : (e : Expression) → (e' : Expression) × (invert e ≡ ok e')
unfolding invert
invert_total (or_expression l or_nil) = (invert_and l, refl)
invert_total (or_expression l (or_rhs e r)) =
    (or_expression (invert_or (or_expression l (or_rhs e r))) or_nil, refl)

-- What an inverse says is what the expression says under a negation, for a `leaf` that takes the
-- inverse of a term for its negation.
module _ (leaf : Bool → Term → Bool)
    (leaf-invert : (t : Term) → leaf false (invert_term t) ≡ leaf true t) where
  says-invert_equal :
      (e : EqualExpr) → says_equal leaf false (invert_equal e) ≡ says_equal leaf true e
  unfolding says_or invert_equal
  says-invert_equal (term t) = leaf-invert t
  says-invert_equal (paren true n) = refl
  says-invert_equal (paren false n) = refl

  says-invert_and_rights :
      (r : AndRights)
      → says_or_rights leaf false (invert_and_rights r) ≡ says_and_rights leaf true r
  unfolding says_or invert_and_rights
  says-invert_and_rights and_nil = refl
  says-invert_and_rights (and_rhs e r) =
      ground (arith, says-invert_equal e, says-invert_and_rights r)

  says-invert_and : (a : AndExpression) → says_or leaf false (invert_and a) ≡ says_and leaf true a
  unfolding says_or invert_and
  says-invert_and (and_expression e r) =
      ground (arith, says-invert_equal e, says-invert_and_rights r)

  says-invert_or_rights :
      (r : OrRights) → says_and_rights leaf false (invert_or_rights r) ≡ says_or_rights leaf true r
  unfolding says_or invert_or_rights
  says-invert_or_rights or_nil = refl
  says-invert_or_rights (or_rhs e r) = ground (arith, says-invert_and e, says-invert_or_rights r)

  pub says-invert :
      (e : Expression) {e' : Expression}
      → invert e ≡ ok e'
      → says_or leaf false e' ≡ says_or leaf true e
  unfolding says_or invert
  says-invert (or_expression l or_nil) h = ground (arith, says-invert_and l)
  says-invert (or_expression l (or_rhs e r)) h =
      ground (arith, says-invert_and l, says-invert_and e, says-invert_or_rights r)

IsTyped-invert_term : (t : Term) → IsTyped t → IsTyped (invert_term t)
unfolding invert_term
IsTyped-invert_term (assign e) h = h
IsTyped-invert_term (inclusion i) h = h
IsTyped-invert_term (less_than c) h = h
IsTyped-invert_term (less_or_equal_than c) h = h
IsTyped-invert_term (greater_than c) h = h
IsTyped-invert_term (greater_or_equal_than c) h = h
IsTyped-invert_term (glob g) h = h

Each-invert_equal : (e : EqualExpr) → EachEqual IsTyped e → EachEqual IsTyped (invert_equal e)
unfolding EachOr invert_equal
Each-invert_equal (term t) h = IsTyped-invert_term t h
Each-invert_equal (paren b n) h = h

Each-invert_and_rights :
    (r : AndRights) → EachAndRights IsTyped r → EachOrRights IsTyped (invert_and_rights r)
unfolding EachOr invert_and_rights
Each-invert_and_rights and_nil h = tt
Each-invert_and_rights (and_rhs e r) h =
    ((Each-invert_equal e h.0, tt), Each-invert_and_rights r h.1)

Each-invert_and : (a : AndExpression) → EachAnd IsTyped a → EachOr IsTyped (invert_and a)
unfolding EachOr invert_and
Each-invert_and (and_expression e r) h =
    ((Each-invert_equal e h.0, tt), Each-invert_and_rights r h.1)

Each-invert_or_rights :
    (r : OrRights) → EachOrRights IsTyped r → EachAndRights IsTyped (invert_or_rights r)
unfolding EachOr invert_or_rights
Each-invert_or_rights or_nil h = tt
Each-invert_or_rights (or_rhs e r) h = (Each-invert_and e h.0, Each-invert_or_rights r h.1)

unwrap-IsTyped :
    (a : AndExpression) {e' : Expression}
    → unwrap_inverted a ≡ ok e'
    → EachAnd IsTyped a
    → EachOr IsTyped e'
unfolding EachOr unwrap_inverted
unwrap-IsTyped (and_expression (paren b n) and_nil) {e'} h k =
    let same : n ≡ e' = cc in subst (EachOr IsTyped) same k.0
unwrap-IsTyped (and_expression (term t) and_nil) h k = cc
unwrap-IsTyped (and_expression l (and_rhs e r)) {e'} h k =
    let same : or_expression (and_expression l (and_rhs e r)) or_nil ≡ e' = cc in
    subst (EachOr IsTyped) same (k, tt)

pub invert-IsTyped :
    (e : Expression) {e' : Expression} → invert e ≡ ok e' → EachOr IsTyped e → EachOr IsTyped e'
unfolding EachOr invert
invert-IsTyped (or_expression l r) h k =
    unwrap-IsTyped (invert_or (or_expression l r)) h
      (Each-invert_and l k.0, Each-invert_or_rights r k.1)
