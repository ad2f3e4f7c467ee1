-- ===== src/Store/Scan/Loop.antt =====
-- The loop of a scan, over any list of entries in ascending order.
use mathlib.Core.Bool.{false≢true}
use arkiv_storage_service.Base.{
  ℕ, ◌≡◌, refl, sym, ap, ◌∙◌, ◌⊎◌, inl, inr, Bool, true, false, ◌||◌, List, [], ◌∷◌, ◌++◌, drop,
  length, Option, none, some, Bool-cases, arith, subst,
}
use arkiv_storage_service.Bytes.{Bytes, AreBytes, lt, has_prefix}
use arkiv_storage_service.Platform.{Platform, Occurs, all_above, Ascending}
use arkiv_storage_service.Store.Scan.{
  Round, continue, break, or_in, or_loaded, load_bitmap_from_pointer, loaded_has, scan,
}

pub drop-append : (p s : Bytes) → drop (length p) (p ++ s) ≡ s
drop-append [] s = refl
drop-append (c ∷ p) s = drop-append p s

pub split_prefix : (p k : Bytes) → has_prefix p k ≡ true → k ≡ p ++ drop (length p) k
unfolding has_prefix
split_prefix [] k h = refl
split_prefix (c ∷ p) [] h = cc
split_prefix (c ∷ p) (d ∷ k) h = ground (arith, ap (λ t. d ∷ t) (split_prefix p k (ground arith)))

pub lt-append : (p a b : Bytes) → lt (p ++ a) (p ++ b) ≡ lt a b
unfolding lt
lt-append [] a b = refl
lt-append (c ∷ p) a b = ground (arith, lt-append p a b)

pub AreBytes-suffix : (p s : Bytes) → AreBytes (p ++ s) → AreBytes s
AreBytes-suffix [] s h = h
AreBytes-suffix (c ∷ p) s h = AreBytes-suffix p s h.1

Occurs-above :
    (k j v : Bytes) (es : List (Bytes × Bytes))
    → all_above k es ≡ true
    → Occurs j v es
    → lt k j ≡ true
Occurs-above k j v [] a o = absurd o
Occurs-above k j v ((i, w) ∷ es) a (inl is) = ap (lt k) is.0 ∙ ground arith
Occurs-above k j v ((i, w) ∷ es) a (inr o) = Occurs-above k j v es (ground arith) o

-- tells `or_in` from the other two
abbrev is_or_in : Round → Bool
is_or_in or_in = true
is_or_in r = false

continue≢or_in : continue ≡ or_in → ⊥
continue≢or_in e = false≢true (ap is_or_in e)

break≢or_in : break ≡ or_in → ⊥
break≢or_in e = false≢true (ap is_or_in e)

module _ (P : Platform) (db : P.kv.Db) (round : Bytes → Round) where
  open P use {roaring.{Bitmap}}

  contains-or_loaded :
      (result : Bitmap) (loaded : Option Bitmap) (i : ℕ)
      → P.roaring.contains (or_loaded P db result loaded) i
        ≡ (P.roaring.contains result i || loaded_has P db loaded i)
  contains-or_loaded result none i = ground arith
  contains-or_loaded result (some bm) i = P.roaring.contains-or result bm i

  -- an entry that is taken in, with `i` in its bitmap
  abbrev pub TakenIn : ℕ → List (Bytes × Bytes) → Type 0
  TakenIn i es =
      (k : Bytes) × (hash : Bytes) × Occurs k hash es
      × (round k ≡ or_in)
      × (loaded_has P db (load_bitmap_from_pointer P db hash) i ≡ true)

  Round-cases : (r : Round) → (r ≡ continue) ⊎ ((r ≡ break) ⊎ (r ≡ or_in))
  Round-cases continue = inl refl
  Round-cases break = inr (inl refl)
  Round-cases or_in = inr (inr refl)

  module _ (result : Bitmap) (k hash : Bytes) (es : List (Bytes × Bytes)) where
    scan-continue :
        round k ≡ continue → scan P db round result ((k, hash) ∷ es) ≡ scan P db round result es
    unfolding scan
    scan-continue e = rw (e, scan) refl

    scan-break : round k ≡ break → scan P db round result ((k, hash) ∷ es) ≡ result
    unfolding scan
    scan-break e = rw (e, scan) refl

    scan-or_in :
        round k ≡ or_in
        → scan P db round result ((k, hash) ∷ es)
          ≡ scan P db round (or_loaded P db result (load_bitmap_from_pointer P db hash)) es
    unfolding scan
    scan-or_in e = rw (e, scan) refl

  abbrev Holds : Bitmap → ℕ → Type 0
  Holds b i = P.roaring.contains b i ≡ true

  later :
      (k hash : Bytes) (es : List (Bytes × Bytes)) (i : ℕ)
      → TakenIn i es
      → TakenIn i ((k, hash) ∷ es)
  later k hash es i (j, w, o, r, l) = (j, w, inr o, r, l)

  pub scan_sound :
      (result : Bitmap) (es : List (Bytes × Bytes)) (i : ℕ)
      → Holds (scan P db round result es) i
      → Holds result i ⊎ TakenIn i es
  unfolding scan
  scan_sound result [] i h = inl h
  scan_sound result ((k, hash) ∷ es) i h = elim (Round-cases (round k)) [
    | inl e ↦
        elim (scan_sound result es i
          (subst (λ b. Holds b i) (scan-continue result k hash es e) h)) [
            | inl c ↦ inl c
            | inr t ↦ inr (later k hash es i t)
          ]
    | inr (inl e) ↦ inl (subst (λ b. Holds b i) (scan-break result k hash es e) h)
    | inr (inr e) ↦
        let loaded = load_bitmap_from_pointer P db hash in
        elim (scan_sound (or_loaded P db result loaded) es i
          (subst (λ b. Holds b i) (scan-or_in result k hash es e) h)) [
            | inl c ↦ elim (Bool-cases (P.roaring.contains result i)) [
              | inl c' ↦ inl c'
              | inr n ↦ inr (
                k,
                hash,
                inl (refl, refl),
                e,
                ground (arith, contains-or_loaded result loaded i, c, n),
              )
            ]
            | inr t ↦ inr (later k hash es i t)
          ]
  ]

  -- After a `break`, no later entry would have been taken in.
  module _ (K : Bytes → Type 0)
      (stops : (k j : Bytes)
        → K k
        → K j
        → round k ≡ break
        → lt k j ≡ true
        → round j ≡ or_in
        → ⊥) where
    pub scan_complete :
        (result : Bitmap) (es : List (Bytes × Bytes)) (i : ℕ)
        → Ascending es
        → ((k hash : Bytes) → Occurs k hash es → K k)
        → Holds result i ⊎ TakenIn i es
        → Holds (scan P db round result es) i
    unfolding scan
    scan_complete result [] i a keys (inl h) = h
    scan_complete result [] i a keys (inr (k, hash, o, r, l)) = absurd o
    scan_complete result ((k, hash) ∷ es) i a keys h =
        let keys' : (j w : Bytes) → Occurs j w es → K j = λ j w o. keys j w (inr o) in
        elim (Round-cases (round k)) [
          | inl e ↦
              subst (λ b. Holds b i) (sym (scan-continue result k hash es e))
                (scan_complete result es i a.1 keys' (elim h [
                  | inl c ↦ inl c
                  | inr (j, w, inl is, r, l) ↦
                      absurd (continue≢or_in (sym e ∙ (ap round (sym is.0) ∙ r)))
                  | inr (j, w, inr o, r, l) ↦ inr (j, w, o, r, l)
                ]))
          | inr (inl e) ↦
              subst (λ b. Holds b i) (sym (scan-break result k hash es e))
                (elim h [
                  | inl c ↦ c
                  | inr (j, w, inl is, r, l) ↦
                      absurd (break≢or_in (sym e ∙ (ap round (sym is.0) ∙ r)))
                  | inr (j, w, inr o, r, l) ↦ absurd (
                      stops k j (keys k hash (inl (refl, refl))) (keys' j w o) e
                        (Occurs-above k j w es a.0 o) r)
                ])
          | inr (inr e) ↦
              let loaded = load_bitmap_from_pointer P db hash in
              let both = contains-or_loaded result loaded i in
              subst (λ b. Holds b i) (sym (scan-or_in result k hash es e))
                (scan_complete (or_loaded P db result loaded) es i a.1 keys' (elim h [
                  | inl c ↦ inl (ground (arith, both, c))
                  | inr (j, w, inl is, r, l) ↦
                      let l' : loaded_has P db loaded i ≡ true =
                        ap (λ v. loaded_has P db (load_bitmap_from_pointer P db v) i) (sym is.1)
                        ∙ l in
                      inl (ground (arith, both, l'))
                  | inr (j, w, inr o, r, l) ↦ inr (j, w, o, r, l)
                ]))
        ]
