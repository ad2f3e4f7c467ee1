-- ===== src/Query/Server/EntityView/Sorted.antt =====
-- The order of attributes, and the sort of `sortedStringAttrs` (query/server.go).
use mathlib.Core.List.{Perm}
use mathlib.Core.List.Perm
use arkiv_storage_service.Base.{
  ◌≡◌, refl, ap, Bool, true, false, not, List, [], ◌∷◌, all, Bool-cases, inl, inr, arith,
}
use arkiv_storage_service.Bytes.{Bytes, beq, lt}
use arkiv_storage_service.Bytes.Order.{lt_trans, lt-eq-not, beq_iff}
use arkiv_storage_service.Query.Server.{Attribute}
use arkiv_storage_service.Query.Server.EntityView.{insert_attr, sort_attrs}

not_below : (j k l : Bytes) → lt k j ≡ false → lt l k ≡ false → lt l j ≡ false
not_below j k l h n = ground (
  arith,
  h,
  n,
  lt-eq-not k j,
  lt_trans l j k,
  λ (e : beq k j ≡ true). ap (lt l) ((beq_iff k j).0 e),
)

module _ {T : Type 0} where
  -- no key after the first lies below it
  abbrev pub none_below : Bytes → List (Attribute T) → Bool
  none_below k as' = all (λ b. not (lt b.key k)) as'

  abbrev pub InOrder : List (Attribute T) → Type 0
  InOrder [] = Unit
  InOrder (a ∷ as') = (none_below a.key as' ≡ true) × InOrder as'

  none_below-insert_attr :
      (k : Bytes) (a : Attribute T) (as' : List (Attribute T))
      → lt a.key k ≡ false
      → none_below k as' ≡ true
      → none_below k (insert_attr a as') ≡ true
  unfolding insert_attr
  none_below-insert_attr k a [] h n = ground arith
  none_below-insert_attr k a (b ∷ bs) h n = ground (arith, none_below-insert_attr k a bs)

  none_below_trans :
      (j k : Bytes) (as' : List (Attribute T))
      → lt k j ≡ false
      → none_below k as' ≡ true
      → none_below j as' ≡ true
  none_below_trans j k [] h n = refl
  none_below_trans j k (b ∷ bs) h n =
      ground (arith, none_below_trans j k bs, not_below j k b.key, h)

  insert_attr-InOrder :
      (a : Attribute T) (as' : List (Attribute T)) → InOrder as' → InOrder (insert_attr a as')
  unfolding insert_attr
  insert_attr-InOrder a [] o = (refl, tt)
  insert_attr-InOrder a (b ∷ bs) o = elim (Bool-cases (lt b.key a.key)) [
    | inl e ↦ rw e (
      none_below-insert_attr b.key a bs (ground (arith, e, lt-eq-not a.key b.key)) o.0,
      insert_attr-InOrder a bs o.1,
    )
    | inr e ↦ rw e (ground (arith, e, none_below_trans a.key b.key bs e o.0), o)
  ]

  insert_attr-Perm :
      (a : Attribute T) (as' : List (Attribute T)) → Perm (insert_attr a as') (a ∷ as')
  unfolding insert_attr
  insert_attr-Perm a [] = Perm.refl (a ∷ [])
  insert_attr-Perm a (b ∷ bs) = elim (Bool-cases (lt b.key a.key)) [
    | inl e ↦ rw e (Perm.trans (Perm.cons b (insert_attr-Perm a bs)) (Perm.swap a b bs))
    | inr e ↦ rw e (Perm.refl (a ∷ b ∷ bs))
  ]

  -- Sorting puts the attributes in the order of their keys, and keeps each as often as it was.
  pub sort_attrs-InOrder :
      (as' : List (Attribute T)) → InOrder (sort_attrs as') × Perm (sort_attrs as') as'
  unfolding sort_attrs
  sort_attrs-InOrder [] = (tt, Perm.refl [])
  sort_attrs-InOrder (a ∷ as') =
      let (o, p) = sort_attrs-InOrder as' in
      (
        insert_attr-InOrder a (sort_attrs as') o,
        Perm.trans (insert_attr-Perm a (sort_attrs as')) (Perm.cons a p),
      )
