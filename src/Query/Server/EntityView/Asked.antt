-- ===== src/Query/Server/EntityView/Asked.antt =====
-- `sortedStringAttrs` and `sortedNumericAttrs` against lists of all that an entity shows.
use mathlib.Core.List.{Perm}
use mathlib.Core.List.Perm
use arkiv_storage_service.Base.{
  ◌≡◌, refl, sym, ap, ◌∙◌, Bool, true, false, not, List, [], ◌∷◌, ◌++◌, append-nil, some, none, ap₂,
  ℕ, map, ◌&&◌, if◌then◌else◌, Bool-cases, inl, inr, arith, subst,
}
use arkiv_storage_service.Bytes.{Bytes, codes, beq, has_prefix}
use arkiv_storage_service.Platform.{Text}
use arkiv_storage_service.Store.Entity.{Entity, StringAnnot, NumericAnnot}
use arkiv_storage_service.Query.Server.{Attribute, IncludeData}
use arkiv_storage_service.Query.Server.EntityView.{
  synthetic_annot, user_annot, any_annot, sort_attrs, attr_if, kept_strings, kept_numbers,
  string_attrs, numeric_attrs, sorted_string_attrs, sorted_numeric_attrs, not_empty, attrs_of,
  kept_annots, view_of,
}
use arkiv_storage_service.Query.Server.EntityView.Sorted.{InOrder, sort_attrs-InOrder}

-- The attributes whose key passes a test.
abbrev pub with_key : {T : Type 0} → (Bytes → Bool) → List (Attribute T) → List (Attribute T)
with_key keep [] = []
with_key keep (a ∷ as') = let rest = with_key keep as' in if keep a.key then a ∷ rest else rest

-- All that an entity shows as texts: its annotations, and four of its fields.
abbrev pub text_rows : Text → Entity → List (Attribute Bytes)
text_rows T e =
    map (λ (a : StringAnnot). record { key = a.key; value = a.value }) e.string_annotations
    ++ record { key = codes "$owner"; value = T.address_hex e.owner }
      ∷ record { key = codes "$creator"; value = T.address_hex e.creator }
      ∷ record { key = codes "$key"; value = T.hash_hex e.key }
      ∷ (if beq e.content_type []
          then []
          else record { key = codes "$contentType"; value = e.content_type } ∷ [])

-- All that it shows as numbers: its annotations, and two of its fields.
abbrev pub number_rows : Entity → List (Attribute ℕ)
number_rows e =
    map (λ (a : NumericAnnot). record { key = a.key; value = a.value }) e.numeric_annotations
    ++ record { key = codes "$expiration"; value = e.expires_at }
      ∷ record { key = codes "$createdAtBlock"; value = e.created_at_block }
      ∷ []

-- The client asked for the keys of this kind: those with a `$` are synthetic.
abbrev pub asked_for : IncludeData → Bytes → Bool
asked_for include key =
    if has_prefix (codes "$") key then include.synthetic_attributes else include.attributes

with_key-append :
    {T : Type 0} (keep : Bytes → Bool) (xs ys : List (Attribute T))
    → with_key keep (xs ++ ys) ≡ with_key keep xs ++ with_key keep ys
with_key-append keep [] ys = refl
with_key-append keep (x ∷ xs) ys = elim (Bool-cases (keep x.key)) [
  | inl e ↦ rw e (ap (λ rest. x ∷ rest) (with_key-append keep xs ys))
  | inr e ↦ rw e (with_key-append keep xs ys)
]

with_key-cons :
    {T : Type 0} (keep : Bytes → Bool) (k : Bytes) (v : T) (as' : List (Attribute T))
    → with_key keep (record { key = k; value = v } ∷ as')
      ≡ attr_if (keep k) k v ++ with_key keep as'
with_key-cons keep k v as' = elim (Bool-cases (keep k)) [ inl e ↦ rw e refl | inr e ↦ rw e refl ]

kept_strings-eq :
    (keep : Bytes → Bool) (as' : List StringAnnot)
    → kept_strings keep as'
      ≡ with_key keep (map (λ (a : StringAnnot). record { key = a.key; value = a.value }) as')
kept_strings-eq keep [] = refl
kept_strings-eq keep (a ∷ as') =
    ap (λ rest. attr_if (keep a.key) a.key a.value ++ rest) (kept_strings-eq keep as')
    ∙ sym (with_key-cons keep a.key a.value _)

kept_numbers-eq :
    (keep : Bytes → Bool) (as' : List NumericAnnot)
    → kept_numbers keep as'
      ≡ with_key keep (map (λ (a : NumericAnnot). record { key = a.key; value = a.value }) as')
kept_numbers-eq keep [] = refl
kept_numbers-eq keep (a ∷ as') =
    ap (λ rest. attr_if (keep a.key) a.key a.value ++ rest) (kept_numbers-eq keep as')
    ∙ sym (with_key-cons keep a.key a.value _)

content_type_row :
    (keep : Bytes → Bool) (c : Bytes)
    → attr_if (keep (codes "$contentType") && not_empty c) (codes "$contentType") c
      ≡ with_key keep
          (if beq c [] then [] else record { key = codes "$contentType"; value = c } ∷ [])
unfolding beq
content_type_row keep [] = elim (Bool-cases (keep (codes "$contentType"))) [
  | inl e ↦ rw e refl
  | inr e ↦ rw e refl
]
content_type_row keep (b ∷ c) = elim (Bool-cases (keep (codes "$contentType"))) [
  | inl e ↦ rw e refl
  | inr e ↦ rw e refl
]

string_attrs-eq :
    (T : Text) (e : Entity) (keep : Bytes → Bool)
    → string_attrs T e keep ≡ with_key keep (text_rows T e)
unfolding string_attrs
string_attrs-eq T e keep =
    ap₂ (λ xs ys. xs ++ ys) (kept_strings-eq keep e.string_annotations)
      (ap (λ rest. owner ++ (creator ++ (key ++ rest))) (content_type_row keep e.content_type)
        ∙ ap (λ rest. owner ++ (creator ++ rest))
            (sym (with_key-cons keep (codes "$key") (T.hash_hex e.key) last))
        ∙ ap (λ rest. owner ++ rest)
            (sym (with_key-cons keep (codes "$creator") (T.address_hex e.creator) keys))
        ∙ sym (with_key-cons keep (codes "$owner") (T.address_hex e.owner) creators))
    ∙ sym (with_key-append keep _ _)
  where
    last : List (Attribute Bytes)
    last =
        if beq e.content_type []
        then []
        else record { key = codes "$contentType"; value = e.content_type } ∷ []

    keys : List (Attribute Bytes)
    keys = record { key = codes "$key"; value = T.hash_hex e.key } ∷ last

    creators : List (Attribute Bytes)
    creators = record { key = codes "$creator"; value = T.address_hex e.creator } ∷ keys

    owner : List (Attribute Bytes)
    owner = attr_if (keep (codes "$owner")) (codes "$owner") (T.address_hex e.owner)

    creator : List (Attribute Bytes)
    creator = attr_if (keep (codes "$creator")) (codes "$creator") (T.address_hex e.creator)

    key : List (Attribute Bytes)
    key = attr_if (keep (codes "$key")) (codes "$key") (T.hash_hex e.key)

numeric_attrs-eq :
    (e : Entity) (keep : Bytes → Bool) → numeric_attrs e keep ≡ with_key keep (number_rows e)
unfolding numeric_attrs
numeric_attrs-eq e keep =
    ap₂ (λ xs ys. xs ++ ys) (kept_numbers-eq keep e.numeric_annotations)
      (ap (λ rest. expiration ++ rest)
          (created ∙ sym (with_key-cons keep (codes "$createdAtBlock") e.created_at_block []))
        ∙ sym (
            with_key-cons keep (codes "$expiration") e.expires_at
              (record { key = codes "$createdAtBlock"; value = e.created_at_block } ∷ [])))
    ∙ sym (with_key-append keep _ _)
  where
    expiration : List (Attribute ℕ)
    expiration = attr_if (keep (codes "$expiration")) (codes "$expiration") e.expires_at

    created :
        attr_if (keep (codes "$createdAtBlock")) (codes "$createdAtBlock") e.created_at_block
        ≡ attr_if (keep (codes "$createdAtBlock")) (codes "$createdAtBlock") e.created_at_block
          ++ []
    created = sym (append-nil _)

with_key-same :
    {T : Type 0} (keep keep' : Bytes → Bool) (as' : List (Attribute T))
    → ((k : Bytes) → keep k ≡ keep' k)
    → with_key keep as' ≡ with_key keep' as'
with_key-same keep keep' [] h = refl
with_key-same keep keep' (a ∷ as') h = rw (h a.key, with_key-same keep keep' as' h)

with_key-none :
    {T : Type 0} (keep : Bytes → Bool) (as' : List (Attribute T))
    → ((k : Bytes) → keep k ≡ false)
    → with_key keep as' ≡ []
with_key-none keep [] h = refl
with_key-none keep (a ∷ as') h = rw (h a.key) (with_key-none keep as' h)

abbrev pub Shows : {T : Type 0} → List (Attribute T) → List (Attribute T) → Type 0
Shows shown rows = InOrder shown × Perm shown rows

sorted-Shows :
    {T : Type 0} (keep asked : Bytes → Bool) (rows : List (Attribute T))
    → ((k : Bytes) → keep k ≡ asked k)
    → Shows (sort_attrs (with_key keep rows)) (with_key asked rows)
sorted-Shows keep asked rows h =
    let (o, p) = sort_attrs-InOrder (with_key keep rows) in
    (o, subst (Perm (sort_attrs (with_key keep rows))) (with_key-same keep asked rows h) p)

-- The two flags choose the keys.
kept_annots-Shows :
    {T : Type 0} (include : IncludeData) (rows : List (Attribute T))
    → Shows
        (attrs_of (λ keep. sort_attrs (with_key keep rows)) (kept_annots include))
        (with_key (asked_for include) rows)
unfolding kept_annots user_annot synthetic_annot
kept_annots-Shows include rows = go include.attributes include.synthetic_attributes
  where
    go :
        (a s : Bool)
        → Shows
            (attrs_of
              (λ keep. sort_attrs (with_key keep rows))
              (if a && s
                then some any_annot
                else if a
                then some (λ key. not (has_prefix (codes "$") key))
                else if s
                then some (λ key. has_prefix (codes "$") key)
                else none))
            (with_key (λ key. if has_prefix (codes "$") key then s else a) rows)
    go true true = sorted-Shows any_annot _ rows (λ k. ground arith)
    go true false =
        sorted-Shows (λ key. not (has_prefix (codes "$") key)) _ rows (λ k. ground arith)
    go false true = sorted-Shows (λ key. has_prefix (codes "$") key) _ rows (λ k. ground arith)
    go false false =
        let nothing =
          with_key-none (λ key. if has_prefix (codes "$") key then false else false) rows
            (λ k. ground arith) in
        (tt, subst (Perm []) (sym nothing) (Perm.refl []))

string_attributes-Shows :
    (T : Text) (include : IncludeData) (e : Entity)
    → Shows (view_of T include e).string_attributes (with_key (asked_for include) (text_rows T e))
unfolding view_of sorted_string_attrs
string_attributes-Shows T include e =
    subst
      (λ (f : (Bytes → Bool) → List (Attribute Bytes)).
        Shows (attrs_of (λ keep. sort_attrs (f keep)) (kept_annots include))
          (with_key (asked_for include) (text_rows T e)))
      (λ i keep. sym (string_attrs-eq T e keep) i) (kept_annots-Shows include (text_rows T e))

numeric_attributes-Shows :
    (T : Text) (include : IncludeData) (e : Entity)
    → Shows (view_of T include e).numeric_attributes (with_key (asked_for include) (number_rows e))
unfolding view_of sorted_numeric_attrs
numeric_attributes-Shows T include e =
    subst
      (λ (f : (Bytes → Bool) → List (Attribute ℕ)).
        Shows (attrs_of (λ keep. sort_attrs (f keep)) (kept_annots include))
          (with_key (asked_for include) (number_rows e)))
      (λ i keep. sym (numeric_attrs-eq e keep) i) (kept_annots-Shows include (number_rows e))

-- The texts of a response are in the order of their keys, and are, each as often, the annotations
-- of the entity, its owner, creator and key, and its content type if there is one, of those kinds
-- that the client asked for: synthetic keys, which begin with `$`, or others. The numbers are the
-- numeric annotations, the expiration and the block of creation, in the same way.
pub view_of-attributes :
    (T : Text) (include : IncludeData) (e : Entity)
    → InOrder (view_of T include e).string_attributes
      × Perm (view_of T include e).string_attributes (with_key (asked_for include) (text_rows T e))
      × InOrder (view_of T include e).numeric_attributes
      × Perm (view_of T include e).numeric_attributes (with_key (asked_for include) (number_rows e))
view_of-attributes T include e =
    let (o, p) = string_attributes-Shows T include e in
    let (o', p') = numeric_attributes-Shows T include e in (o, p, o', p')
