-- ===== src/Platform/Sample/Listed.antt =====
-- A database as an association list.
use mathlib.Core.Bool.{false≢true}
use arkiv_storage_service.Base.{
  ◌≡◌, refl, sym, ap, ◌∙◌, ◌↔◌, inl, inr, Bool, true, false, not, ◌&&◌, List, [], ◌∷◌, ◌++◌, Option,
  none, some, if◌then◌else◌, Bool-cases, arith, subst,
}
use arkiv_storage_service.Base.Assoc
use arkiv_storage_service.Base.Assoc.{Eq}
use arkiv_storage_service.Bytes.{Bytes, beq, lt, has_prefix}
use arkiv_storage_service.Bytes.Order.{beq_iff, lt_irrefl, lt_trans, lt-eq-not}
use arkiv_storage_service.Platform.{Kv, Occurs, all_above, Ascending}

abbrev pub key_eq : Eq Bytes
key_eq = record { same = beq; same_iff = beq_iff }

-- an ascending list with one pair more, which takes the place of an equal key's
abbrev pub upsert : Bytes → Bytes → List (Bytes × Bytes) → List (Bytes × Bytes)
upsert k v [] = (k, v) ∷ []
upsert k v ((j, w) ∷ es) =
    let rest = upsert k v es in
    if beq j k then (k, v) ∷ es else if lt k j then (k, v) ∷ (j, w) ∷ es else (j, w) ∷ rest

abbrev pub sorted : List (Bytes × Bytes) → List (Bytes × Bytes)
sorted [] = []
sorted ((k, v) ∷ m) = upsert k v (sorted m)

abbrev pub chosen : (Bytes → Bool) → List (Bytes × Bytes) → List (Bytes × Bytes)
chosen p [] = []
chosen p ((k, v) ∷ es) = if p k then (k, v) ∷ chosen p es else chosen p es

all_above-upsert :
    (l k v : Bytes) (es : List (Bytes × Bytes))
    → lt l k ≡ true
    → all_above l es ≡ true
    → all_above l (upsert k v es) ≡ true
all_above-upsert l k v [] h a = ground arith
all_above-upsert l k v ((j, w) ∷ es) h a = ground (arith, all_above-upsert l k v es)

all_above_trans :
    (k j : Bytes) (es : List (Bytes × Bytes))
    → lt k j ≡ true
    → all_above j es ≡ true
    → all_above k es ≡ true
all_above_trans k j [] h a = refl
all_above_trans k j ((i, w) ∷ es) h a = ground (arith, all_above_trans k j es, lt_trans k j i)

upsert-Ascending :
    (k v : Bytes) (es : List (Bytes × Bytes)) → Ascending es → Ascending (upsert k v es)
upsert-Ascending k v [] a = (refl, tt)
upsert-Ascending k v ((j, w) ∷ es) a = elim (Bool-cases (beq j k)) [
  | inl e ↦ rw e (subst (λ i. all_above i es ≡ true) ((beq_iff j k).0 e) a.0, a.1)
  | inr e ↦ rw e (elim (Bool-cases (lt k j)) [
    | inl l ↦ rw l (ground (arith, l, all_above_trans k j es l a.0), a)
    | inr l ↦
        rw l (
          all_above-upsert j k v es (ground (arith, lt-eq-not j k)) a.0,
          upsert-Ascending k v es a.1,
        )
  ])
]

sorted-Ascending : (m : List (Bytes × Bytes)) → Ascending (sorted m)
sorted-Ascending [] = tt
sorted-Ascending ((k, v) ∷ m) = upsert-Ascending k v (sorted m) (sorted-Ascending m)

all_above-chosen :
    (p : Bytes → Bool) (l : Bytes) (es : List (Bytes × Bytes))
    → all_above l es ≡ true
    → all_above l (chosen p es) ≡ true
all_above-chosen p l [] a = refl
all_above-chosen p l ((j, w) ∷ es) a = ground (arith, all_above-chosen p l es)

chosen-Ascending :
    (p : Bytes → Bool) (es : List (Bytes × Bytes)) → Ascending es → Ascending (chosen p es)
chosen-Ascending p [] a = tt
chosen-Ascending p ((j, w) ∷ es) a = elim (Bool-cases (p j)) [
  | inl e ↦ rw e (all_above-chosen p j es a.0, chosen-Ascending p es a.1)
  | inr e ↦ rw e (chosen-Ascending p es a.1)
]

-- A key lies above none of those above it.
not_above : (k v : Bytes) (es : List (Bytes × Bytes)) → all_above k es ≡ true → Occurs k v es → ⊥
not_above k v [] a o = o
not_above k v ((j, w) ∷ es) a (inl is) =
    false≢true (sym (lt_irrefl k) ∙ (ap (lt k) is.0 ∙ ground arith))
not_above k v ((j, w) ∷ es) a (inr o) = not_above k v es (ground arith) o

-- In an ascending list, a pair occurs exactly if the list has the value under the key.
abbrev find : Bytes → List (Bytes × Bytes) → Option Bytes
find k es = Assoc.lookup key_eq k es

Occurs-find :
    (k v : Bytes) (es : List (Bytes × Bytes)) → Ascending es → Occurs k v es ↔ (find k es ≡ some v)
unfolding Assoc.lookup
Occurs-find k v [] a = (λ o. absurd o, λ h. cc)
Occurs-find k v ((j, w) ∷ es) a = elim (Bool-cases (beq j k)) [
  | inl e ↦ rw e (
    λ o. elim o [
      | inl is ↦ ap some (sym is.1)
      | inr o' ↦
          absurd (not_above k v es (subst (λ i. all_above i es ≡ true) ((beq_iff j k).0 e) a.0) o')
    ],
    λ h. inl (sym ((beq_iff j k).0 e), cc),
  )
  | inr e ↦ rw e (
    λ o. elim o [
      | inl is ↦ absurd (false≢true (sym e ∙ (beq_iff j k).1 (sym is.0)))
      | inr o' ↦ (Occurs-find k v es a.1).0 o'
    ],
    λ h. inr ((Occurs-find k v es a.1).1 h),
  )
]

find-upsert :
    (k v j : Bytes) (es : List (Bytes × Bytes))
    → find j (upsert k v es) ≡ (if beq k j then some v else find j es)
unfolding Assoc.lookup
find-upsert k v j [] = refl
find-upsert k v j ((i, w) ∷ es) = elim (Bool-cases (beq i k)) [
  | inl e ↦ rw e (ground (arith, ap (λ x. beq x j) ((beq_iff i k).0 e)))
  | inr e ↦
      let apart : beq i j ≡ true → beq k j ≡ true → beq i k ≡ true =
        λ p q. (beq_iff i k).1 ((beq_iff i j).0 p ∙ sym ((beq_iff k j).0 q)) in
      rw e (ground (arith, e, apart, find-upsert k v j es))
]

find-sorted : (j : Bytes) (m : List (Bytes × Bytes)) → find j (sorted m) ≡ find j m
unfolding Assoc.lookup
find-sorted j [] = refl
find-sorted j ((k, v) ∷ m) = find-upsert k v j (sorted m) ∙ ground (arith, find-sorted j m)

Occurs-chosen :
    (p : Bytes → Bool) (k v : Bytes) (es : List (Bytes × Bytes))
    → Occurs k v (chosen p es) ↔ (Occurs k v es × (p k ≡ true))
Occurs-chosen p k v [] = (λ o. absurd o, λ o. absurd o.0)
Occurs-chosen p k v ((j, w) ∷ es) =
    let (to, from) = Occurs-chosen p k v es in
    elim (Bool-cases (p j)) [
      | inl e ↦ rw e (
        λ o. elim o [ inl is ↦ (inl is, ap p is.0 ∙ e) | inr o' ↦ (inr (to o').0, (to o').1) ],
        λ (o, h). elim o [ inl is ↦ inl is | inr o' ↦ inr (from (o', h)) ],
      )
      | inr e ↦ rw e (
        λ o. (inr (to o).0, (to o).1),
        λ (o, h). elim o [
          | inl is ↦ absurd (false≢true (sym e ∙ (ap p (sym is.0) ∙ h)))
          | inr o' ↦ from (o', h)
        ],
      )
    ]

abbrev starts : Bytes → Bytes → Bytes → Bool
starts p s k = has_prefix p k && not (lt k (p ++ s))

abbrev pub list_entries : List (Bytes × Bytes) → Bytes → Bytes → List (Bytes × Bytes)
list_entries m p s = chosen (starts p s) (sorted m)

pub Occurs-list_entries :
    (m : List (Bytes × Bytes)) (p s k v : Bytes)
    → Occurs k v (list_entries m p s)
      ↔ ((Assoc.lookup key_eq k m ≡ some v) × (has_prefix p k ≡ true) × (lt k (p ++ s) ≡ false))
Occurs-list_entries m p s k v =
    let (to, from) = Occurs-chosen (starts p s) k v (sorted m) in
    let (to', from') = Occurs-find k v (sorted m) (sorted-Ascending m) in
    (
      λ o. (
        sym (find-sorted k m) ∙ to' (to o).0,
        ground (arith, (to o).1),
        ground (arith, (to o).1),
      ),
      λ (h, p', l). from (from' (find-sorted k m ∙ h), ground (arith, p', l)),
    )

pub list_entries-Ascending :
    (m : List (Bytes × Bytes)) (p s : Bytes) → Ascending (list_entries m p s)
list_entries-Ascending m p s = chosen-Ascending (starts p s) (sorted m) (sorted-Ascending m)

pub get_new : (k : Bytes) → Assoc.lookup {V = Bytes} key_eq k [] ≡ none
unfolding Assoc.lookup
get_new k = refl

abbrev pub listed_kv : Kv
listed_kv = record {
  Db = List (Bytes × Bytes);
  get = λ d k. Assoc.lookup key_eq k d;
  put = λ d k v. Assoc.insert key_eq k v d;
  delete = λ d k. Assoc.without key_eq k d;
  new = [];
  entries = list_entries;
  Occurs-entries = Occurs-list_entries;
  entries-Ascending = list_entries-Ascending;
  get-new = get_new;
  get-put = λ d k j v. Assoc.lookup-insert key_eq k j v d;
  get-delete = λ d k j. Assoc.lookup-without key_eq k j d;
}
