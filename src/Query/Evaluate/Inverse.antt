-- ===== src/Query/Evaluate/Inverse.antt =====
-- A term and its inverse (`EqualExpr.invert` of query/normalize.go) divide the entities.
use mathlib.Core.Bool.{false≢true}
use arkiv_storage_service.Base.{
  ℕ, ◌≤◌, ◌<◌, ◌≡◌, refl, sym, ap, ◌∙◌, ◌↔◌, Bool, true, false, not, ltb, leb, ok, arith,
}
use arkiv_storage_service.Bytes.{Bytes, lt}
use arkiv_storage_service.Bytes.BigEndian.{max_uint64}
use arkiv_storage_service.Roaring.{Roaring}
use arkiv_storage_service.Query.Language.{
  Value, string, number, Term, assign, inclusion, less_than, less_or_equal_than, greater_than,
  greater_or_equal_than, glob,
}
use arkiv_storage_service.Query.Normalize.{invert_term}
use arkiv_storage_service.Store.Glob.Matches.{Matches}
use arkiv_storage_service.Query.Evaluate.{StoreQuerier, numeric_annot_val, annot_val, evaluate_term}
use arkiv_storage_service.Query.Evaluate.Contract.{
  Serves, FitsTerm, Negated, SomeString, SomeNumber, Less, LessOrEqual, Greater, GreaterOrEqual,
  Meaning, has_one,
}
use arkiv_storage_service.Query.Evaluate.Terms.{evaluate_term-Yields}

Bool-iff : (a b : Bool) → (a ≡ true) ↔ (b ≡ true) → a ≡ b
Bool-iff true b e = sym (e.0 refl)
Bool-iff false true e = e.1 refl
Bool-iff false false e = refl

excluded :
    (l a b : Bool) {P : Type 0}
    → l ≡ true
    → (a ≡ true) ↔ P
    → (b ≡ true) ↔ ((l ≡ true) × (¬ P))
    → b ≡ not a
excluded l true true h p q = absurd ((q.0 refl).1 (p.0 refl))
excluded l true false h p q = refl
excluded l false true h p q = refl
excluded l false false h p q = q.1 (h, λ x. false≢true (p.1 x))

not_of_not : (a b : Bool) → b ≡ not a → a ≡ not b
not_of_not a b h = ground (arith, h)

module _ (index scanned : Bytes → Bytes → ℕ → Bool) (live : ℕ → Bool) (i : ℕ) where
  -- Entity `i` has one value under the key, of the kind of the value that it is compared with.
  abbrev pub HasOne : Bytes → Value → Type 0
  HasOne k (string s) =
      (x : Bytes) × (scanned k x i ≡ true) × ((y : Bytes) → scanned k y i ≡ true → y ≡ x)
  HasOne k (number n) =
      (m : ℕ) × (m ≤ max_uint64)
      × (index k (numeric_annot_val m) i ≡ true)
      × ((o : ℕ) → o ≤ max_uint64 → index k (numeric_annot_val o) i ≡ true → o ≡ m)

  -- The entity is alive, and has one value where the term compares.
  abbrev pub Compares : Term → Type 0
  Compares (less_than c) = HasOne c.var c.value
  Compares (less_or_equal_than c) = HasOne c.var c.value
  Compares (greater_than c) = HasOne c.var c.value
  Compares (greater_or_equal_than c) = HasOne c.var c.value
  Compares t = live i ≡ true

  string_test :
      (k x : Bytes) (test : Bytes → Bool) (b : Bool)
      → scanned k x i ≡ true
      → ((y : Bytes) → scanned k y i ≡ true → y ≡ x)
      → (b ≡ true) ↔ SomeString index scanned live i k test
      → b ≡ test x
  string_test k x test b at only e =
      Bool-iff b (test x)
        (λ h. let (y, t, z) = e.0 h in ap test (sym (only y z)) ∙ t, λ t. e.1 (x, t, at))

  number_test :
      (k : Bytes) (m : ℕ) (test : ℕ → Bool) (P : ℕ → Type 0) (b : Bool)
      → m ≤ max_uint64
      → index k (numeric_annot_val m) i ≡ true
      → ((o : ℕ) → o ≤ max_uint64 → index k (numeric_annot_val o) i ≡ true → o ≡ m)
      → ((o : ℕ) → P o ↔ (test o ≡ true))
      → (b ≡ true) ↔ SomeNumber index scanned live i k P
      → b ≡ test m
  number_test k m test P b fits at only decides e = Bool-iff b (test m) (
    λ h. let (o, p, f, z) = e.0 h in ap test (sym (only o f z)) ∙ (decides o).0 p,
    λ t. e.1 (m, (decides m).1 t, fits, at),
  )

  below_apart :
      (k : Bytes) (v : Value) (a b : Bool)
      → HasOne k v
      → (a ≡ true) ↔ Less index scanned live i k v
      → (b ≡ true) ↔ GreaterOrEqual index scanned live i k v
      → b ≡ not a
  below_apart k (string s) a b (x, at, only) p q =
      string_test k x (λ y. not (lt y s)) b at only q
      ∙ ap not (sym (string_test k x (λ y. lt y s) a at only p))
  below_apart k (number n) a b (m, fits, at, only) p q =
      let below =
        number_test k m (λ o. ltb o n) (λ o. o < n) a fits at only (λ o. ground arith) p in
      let above =
        number_test k m (λ o. leb n o) (λ o. n ≤ o) b fits at only (λ o. ground arith) q in
      ground (arith, below, above)

  over_apart :
      (k : Bytes) (v : Value) (a b : Bool)
      → HasOne k v
      → (a ≡ true) ↔ Greater index scanned live i k v
      → (b ≡ true) ↔ LessOrEqual index scanned live i k v
      → b ≡ not a
  over_apart k (string s) a b (x, at, only) p q =
      string_test k x (λ y. not (lt s y)) b at only q
      ∙ ap not (sym (string_test k x (λ y. lt s y) a at only p))
  over_apart k (number n) a b (m, fits, at, only) p q =
      let over = number_test k m (λ o. ltb n o) (λ o. n < o) a fits at only (λ o. ground arith) p in
      let under =
        number_test k m (λ o. leb o n) (λ o. o ≤ n) b fits at only (λ o. ground arith) q in
      ground (arith, over, under)

  negated_apart :
      (n a b : Bool) (P : Type 0)
      → live i ≡ true
      → (a ≡ true) ↔ Negated index scanned live i n P
      → (b ≡ true) ↔ Negated index scanned live i (not n) P
      → b ≡ not a
  negated_apart false a b P h p q = excluded (live i) a b h p q
  negated_apart true a b P h p q = not_of_not b a (excluded (live i) b a h q p)

  apart :
      (t : Term) (a b : Bool)
      → Compares t
      → (a ≡ true) ↔ Meaning index scanned live i t
      → (b ≡ true) ↔ Meaning index scanned live i (invert_term t)
      → b ≡ not a
  unfolding invert_term
  apart (assign e) a b h p q =
      negated_apart e.is_not a b (index e.var (annot_val e.value) i ≡ true) h p q
  apart (inclusion e) a b h p q =
      negated_apart e.is_not a b (has_one index scanned live i e.var e.values ≡ true) h p q
  apart (glob e) a b h p q =
      negated_apart e.is_not a b ((s : Bytes) × Matches e.value s × (scanned e.var s i ≡ true)) h p
        q
  apart (less_than c) a b h p q = below_apart c.var c.value a b h p q
  apart (greater_or_equal_than c) a b h p q = not_of_not b a (below_apart c.var c.value b a h q p)
  apart (greater_than c) a b h p q = over_apart c.var c.value a b h p q
  apart (less_or_equal_than c) a b h p q = not_of_not b a (over_apart c.var c.value b a h q p)

fits_inverse : (t : Term) → FitsTerm t → FitsTerm (invert_term t)
unfolding invert_term
fits_inverse (assign e) f = tt
fits_inverse (inclusion e) f = tt
fits_inverse (glob e) f = f
fits_inverse (less_than c) f = f
fits_inverse (less_or_equal_than c) f = f
fits_inverse (greater_than c) f = f
fits_inverse (greater_or_equal_than c) f = f

-- Over a store that serves an index, a term and its inverse evaluate, and an entity is in exactly
-- one of the two results: a live entity, or for a comparison one that has a single value of the
-- kind under the name. The comparison is with a number of 64 bits, and the pattern is a byte string.
pub evaluate_term-invert_term :
    (R : Roaring) (q : StoreQuerier R) (at : ℕ) (index scanned : Bytes → Bytes → ℕ → Bool)
    (live : ℕ → Bool)
    → Serves R q at index scanned live
    → (t : Term) (i : ℕ) → FitsTerm t
    → Compares index scanned live i t
    → (b b' : R.Bitmap) × (evaluate_term R q at t ≡ ok b)
      × (evaluate_term R q at (invert_term t) ≡ ok b')
      × (R.contains b' i ≡ not (R.contains b i))
evaluate_term-invert_term R q at index scanned live S t i f h =
    let (b, run, e) = evaluate_term-Yields R q at index scanned live S t f in
    let (b', run', e') =
      evaluate_term-Yields R q at index scanned live S (invert_term t) (fits_inverse t f) in
    (
      b,
      b',
      run,
      run',
      apart index scanned live i t (R.contains b i) (R.contains b' i) h (e i) (e' i),
    )
