-- ===== src/Store/Entity/Laws.antt =====
-- Annotation pairs as a set, and the numbers of `uint` attributes.
use mathlib.Core.Bool.{false≢true}
use arkiv_storage_service.Base.{
  ◌≡◌, refl, sym, ap, ◌∙◌, ◌↔◌, true, ◌||◌, List, [], ◌∷◌, ◌++◌, any-append, arith, Bool-cases, inl,
  inr,
}
use arkiv_storage_service.Bytes.Order.{beq_iff}
use arkiv_storage_service.Store.Entity.{AnnotPair, same_pair, has_pair, annot_pair_set}

pub same_pair_iff : (p q : AnnotPair) → (same_pair p q ≡ true) ↔ (p ≡ q)
unfolding same_pair
same_pair_iff (k, v) (k', v') = (
  λ h. λ i. ((beq_iff k k').0 (ground arith) i, (beq_iff v v').0 (ground arith) i),
  λ e. ground (arith, (beq_iff k k').1 (ap (λ x. x.0) e), (beq_iff v v').1 (ap (λ x. x.1) e)),
)

pub has_pair_same :
    (pairs : List AnnotPair) (p q : AnnotPair)
    → same_pair p q ≡ true
    → has_pair pairs p ≡ has_pair pairs q
has_pair_same pairs p q h = ap (has_pair pairs) ((same_pair_iff p q).0 h)

pub has_pair-append :
    (ps qs : List AnnotPair) (p : AnnotPair)
    → has_pair (ps ++ qs) p ≡ (has_pair ps p || has_pair qs p)
unfolding has_pair
has_pair-append ps qs p = any-append (same_pair p) ps qs

-- The map has the pairs of the list.
pub has_pair-annot_pair_set :
    (pairs : List AnnotPair) (p : AnnotPair) → has_pair (annot_pair_set pairs) p ≡ has_pair pairs p
unfolding annot_pair_set has_pair
has_pair-annot_pair_set [] p = refl
has_pair-annot_pair_set (q ∷ pairs) p = elim (Bool-cases (has_pair pairs q)) [
  | inl e ↦ rw e (
      ground (
        arith,
        has_pair-annot_pair_set pairs p,
        λ (s : same_pair p q ≡ true). has_pair_same pairs p q s,
      ))
  | inr e ↦ rw e (ground (arith, has_pair-annot_pair_set pairs p))
]

pub same_pair_sym : (p q : AnnotPair) → same_pair p q ≡ same_pair q p
same_pair_sym p q = elim (Bool-cases (same_pair p q)) [
  | inl e ↦ e ∙ sym ((same_pair_iff q p).1 (sym ((same_pair_iff p q).0 e)))
  | inr e ↦ elim (Bool-cases (same_pair q p)) [
    | inl e' ↦ absurd (false≢true (sym e ∙ (same_pair_iff p q).1 (sym ((same_pair_iff q p).0 e'))))
    | inr e' ↦ e ∙ sym e'
  ]
]
