-- ===== src/Store/Entity/Plain.antt =====
-- Entities whose user annotations have no reserved name, one that begins with `$`.
use mathlib.Core.Bool.{false≢true}
use arkiv_storage_service.Base.{
  ℕ, ◌≡◌, refl, sym, ap, ◌∙◌, true, false, not, ◌&&◌, ◌||◌, List, [], ◌∷◌, ◌++◌, map, Bool-cases,
  inl, inr, arith,
}
use arkiv_storage_service.Bytes.{Bytes, codes, beq, has_prefix}
use arkiv_storage_service.Bytes.Order.{beq_sound}
use arkiv_storage_service.Platform.{Text}
use arkiv_storage_service.Types.{Attribute}
use arkiv_storage_service.Store.Keys.{numeric_val}
use arkiv_storage_service.Store.Entity.{
  Entity, StringAnnot, NumericAnnot, AnnotPair, same_pair, has_pair, user_annotations,
  all_annotations, apply_attribute, apply_attributes,
}
use arkiv_storage_service.Store.Entity.Laws.{has_pair-append, has_pair_same}

-- the names of wire attributes
abbrev pub PlainNames : List Attribute → Type 0
PlainNames [] = Unit
PlainNames (a ∷ attrs) = (has_prefix (codes "$") a.name ≡ false) × PlainNames attrs

swap :
    (front back : List AnnotPair) (old new q : AnnotPair)
    → has_pair front old ≡ false
    → has_pair back old ≡ false
    → (has_pair (new ∷ []) q
        || (not (has_pair (old ∷ []) q) && (has_pair front q || has_pair (old ∷ back) q)))
      ≡ (has_pair front q || has_pair (new ∷ back) q)
unfolding has_pair
swap front back old new q h h' = ground (
  arith,
  λ (s : same_pair q old ≡ true). has_pair_same front q old s ∙ h,
  λ (s : same_pair q old ≡ true). has_pair_same back q old s ∙ h',
)

module _ (T : Text) where
  reserved_ne :
      (k n : Bytes)
      → has_prefix (codes "$") k ≡ true
      → has_prefix (codes "$") n ≡ false
      → beq k n ≡ false
  reserved_ne k n h h' = elim (Bool-cases (beq k n)) [
    | inl e ↦
        absurd (false≢true (sym h' ∙ (ap (has_prefix (codes "$")) (sym (beq_sound k n e)) ∙ h)))
    | inr e ↦ e
  ]

  strings-append :
      (xs : List StringAnnot) (a : StringAnnot) (k v : Bytes)
      → beq k a.key ≡ false
      → has_pair (map (λ (x : StringAnnot). (x.key, x.value)) (xs ++ a ∷ [])) (k, v)
        ≡ has_pair (map (λ (x : StringAnnot). (x.key, x.value)) xs) (k, v)
  unfolding has_pair
  strings-append [] a k v h = ground arith
  strings-append (x ∷ xs) a k v h = ground (arith, strings-append xs a k v h)

  numbers-append :
      (xs : List NumericAnnot) (a : NumericAnnot) (k v : Bytes)
      → beq k a.key ≡ false
      → has_pair (map (λ (x : NumericAnnot). (x.key, numeric_val x.value)) (xs ++ a ∷ [])) (k, v)
        ≡ has_pair (map (λ (x : NumericAnnot). (x.key, numeric_val x.value)) xs) (k, v)
  unfolding has_pair
  numbers-append [] a k v h = ground arith
  numbers-append (x ∷ xs) a k v h = ground (arith, numbers-append xs a k v h)

  abbrev string_pairs : Entity → List AnnotPair
  string_pairs e = map (λ (x : StringAnnot). (x.key, x.value)) e.string_annotations

  abbrev number_pairs : Entity → List AnnotPair
  number_pairs e = map (λ (x : NumericAnnot). (x.key, numeric_val x.value)) e.numeric_annotations

  add_string :
      (e : Entity) (a : StringAnnot) (k v : Bytes)
      → beq k a.key ≡ false
      → has_pair
          (user_annotations T (record e { string_annotations = e.string_annotations ++ a ∷ [] }))
          (k, v)
        ≡ has_pair (user_annotations T e) (k, v)
  unfolding user_annotations
  add_string e a k v h =
      has_pair-append _ (number_pairs e) (k, v)
      ∙ (ap (λ x. x || has_pair (number_pairs e) (k, v))
            (strings-append e.string_annotations a k v h)
          ∙ sym (has_pair-append (string_pairs e) (number_pairs e) (k, v)))

  add_number :
      (e : Entity) (a : NumericAnnot) (k v : Bytes)
      → beq k a.key ≡ false
      → has_pair
          (user_annotations T (record e { numeric_annotations = e.numeric_annotations ++ a ∷ [] }))
          (k, v)
        ≡ has_pair (user_annotations T e) (k, v)
  unfolding user_annotations
  add_number e a k v h =
      has_pair-append (string_pairs e) _ (k, v)
      ∙ (ap (λ x. has_pair (string_pairs e) (k, v) || x)
            (numbers-append e.numeric_annotations a k v h)
          ∙ sym (has_pair-append (string_pairs e) (number_pairs e) (k, v)))

  -- An attribute with an unreserved name adds no reserved pair.
  attribute_plain :
      (e : Entity) (a : Attribute) (k v : Bytes)
      → beq k a.name ≡ false
      → has_pair (user_annotations T (apply_attribute T e a)) (k, v)
        ≡ has_pair (user_annotations T e) (k, v)
  unfolding apply_attribute
  attribute_plain e a k v h = elim (Bool-cases (beq a.value_type (codes "string"))) [
    | inl s ↦ rw s (add_string e _ k v h)
    | inr s ↦ rw s (elim (Bool-cases (beq a.value_type (codes "uint"))) [
      | inl u ↦ rw u (add_number e _ k v h)
      | inr u ↦ rw u (elim (Bool-cases (beq a.value_type (codes "entityKey"))) [
        | inl w ↦ rw w (add_string e _ k v h)
        | inr w ↦ rw w
      ])
    ])
  ]

  pub apply_attributes-plain :
      (e : Entity) (attrs : List Attribute) (k v : Bytes)
      → PlainNames attrs
      → has_prefix (codes "$") k ≡ true
      → has_pair (user_annotations T (apply_attributes T e attrs)) (k, v)
        ≡ has_pair (user_annotations T e) (k, v)
  unfolding apply_attributes
  apply_attributes-plain e [] k v n h = refl
  apply_attributes-plain e (a ∷ attrs) k v n h =
      apply_attributes-plain (apply_attribute T e a) attrs k v n.1 h
      ∙ attribute_plain e a k v (reserved_ne k a.name h n.0)

  -- One pair of a list, which stands nowhere else in it, is replaced.
  replace_pair :
      (front back : List AnnotPair) (old new q : AnnotPair)
      → has_pair front old ≡ false
      → has_pair back old ≡ false
      → (has_pair (new ∷ []) q || (not (has_pair (old ∷ []) q) && has_pair (front ++ old ∷ back) q))
        ≡ has_pair (front ++ new ∷ back) q
  replace_pair front back old new q h h' =
      rw (has_pair-append front (old ∷ back) q)
        (rw (has_pair-append front (new ∷ back) q) (swap front back old new q h h'))

  pub has_pair-expires_at :
      (e : Entity) (t : ℕ) (q : AnnotPair)
      → has_pair (user_annotations T e) (codes "$expiration", numeric_val e.expires_at) ≡ false
      → (has_pair ((codes "$expiration", numeric_val t) ∷ []) q
          || (not (has_pair ((codes "$expiration", numeric_val e.expires_at) ∷ []) q)
              && has_pair (all_annotations T e) q))
        ≡ has_pair (all_annotations T (record e { expires_at = t })) q
  unfolding all_annotations has_pair beq
  has_pair-expires_at e t q h =
      replace_pair
        ((codes "$all", codes "true")
          ∷ (codes "$creator", T.to_lower (T.address_hex e.creator))
          ∷ (codes "$createdAtBlock", numeric_val e.created_at_block)
          ∷ (codes "$lastModifiedAtBlock", numeric_val e.last_modified_at_block)
          ∷ (codes "$owner", T.to_lower (T.address_hex e.owner))
          ∷ (codes "$key", T.to_lower (T.hash_hex e.key))
          ∷ [])
        ((codes "$contentType", e.content_type) ∷ user_annotations T e)
        (codes "$expiration", numeric_val e.expires_at) (codes "$expiration", numeric_val t) q refl
        h

  pub has_pair-owner :
      (e : Entity) (owner : Bytes) (q : AnnotPair)
      → has_pair (user_annotations T e) (codes "$owner", T.to_lower (T.address_hex e.owner)) ≡ false
      → (has_pair ((codes "$owner", T.to_lower (T.address_hex owner)) ∷ []) q
          || (not (has_pair ((codes "$owner", T.to_lower (T.address_hex e.owner)) ∷ []) q)
              && has_pair (all_annotations T e) q))
        ≡ has_pair (all_annotations T (record e { owner = owner })) q
  unfolding all_annotations has_pair beq
  has_pair-owner e owner q h =
      replace_pair
        ((codes "$all", codes "true")
          ∷ (codes "$creator", T.to_lower (T.address_hex e.creator))
          ∷ (codes "$createdAtBlock", numeric_val e.created_at_block)
          ∷ (codes "$lastModifiedAtBlock", numeric_val e.last_modified_at_block)
          ∷ [])
        ((codes "$key", T.to_lower (T.hash_hex e.key))
          ∷ (codes "$expiration", numeric_val e.expires_at)
          ∷ (codes "$contentType", e.content_type)
          ∷ user_annotations T e)
        (codes "$owner", T.to_lower (T.address_hex e.owner))
        (codes "$owner", T.to_lower (T.address_hex owner)) q refl h
