-- ===== src/Query/Evaluate/Terms.antt =====
-- Each term evaluates to the set of entities that it means.
use mathlib.Core.Bool.{false≢true}
use arkiv_storage_service.Base.{
  zero, suc, take, if◌then◌else◌, subst, ℕ, ◌+◌, ◌-◌, ◌≤◌, ◌<◌, ◌≡◌, refl, sym, ◌∙◌, ◌↔◌, Bool,
  true, false, not, ◌&&◌, ◌||◌, none, some, Option-cases, inl, inr, List, [], ◌∷◌, any, length, ltb,
  ◌==◌, Bool-cases, Result, ok, arith,
}
use arkiv_storage_service.Bytes.{Bytes, AreBytes}
use arkiv_storage_service.Bytes.BigEndian.{max_uint64}
use arkiv_storage_service.Roaring.{Roaring}
use arkiv_storage_service.Store.Glob.{is_prefix_glob, has_suffix, is_wildcard}
use arkiv_storage_service.Store.Glob.Matches.{Matches, glob_match_iff}
use arkiv_storage_service.Store.Glob.Prefix.{glob_match-eq-has_prefix}
use arkiv_storage_service.Query.Language.{
  Value, string, number, Equality, Inclusion, GlobExpr, Term, assign, inclusion, less_than,
  less_or_equal_than, greater_than, greater_or_equal_than, glob,
}
use arkiv_storage_service.Query.Evaluate.{
  StoreQuerier, numeric_annot_val, annot_val, evaluate_less_than, evaluate_less_or_equal_than,
  evaluate_greater_than, evaluate_greater_or_equal_than, negate_if, evaluate_equality, glob_bitmap,
  evaluate_glob, union_strings, union_numbers, evaluate_inclusion, evaluate_term,
}
use arkiv_storage_service.Query.Evaluate.Contract.{
  Serves, FitsValue, FitsTerm, Negated, Less, LessOrEqual, Greater, GreaterOrEqual, Meaning,
}

below_of_pred : (n m : ℕ) → (n == 0) ≡ false → m ≤ n - 1 → m < n
below_of_pred n m h b = ground arith

AreBytes-take : (n : ℕ) (s : Bytes) → AreBytes s → AreBytes (take n s)
AreBytes-take zero s h = tt
AreBytes-take (suc n) [] h = tt
AreBytes-take (suc n) (c ∷ s) h = (h.0, AreBytes-take n s h.1)

is_prefix_glob-AreBytes :
    (p prefix : Bytes) → AreBytes p → is_prefix_glob p ≡ some prefix → AreBytes prefix
unfolding is_prefix_glob
is_prefix_glob-AreBytes p prefix h =
    let cut = take (length p - 1) p in
    go (has_suffix p (b'*' ∷ [])) (any is_wildcard cut) cut (AreBytes-take (length p - 1) p h)
  where
    go :
        (a b : Bool) (cut : Bytes)
        → AreBytes cut
        → (if a then (if b then none else some cut) else none) ≡ some prefix
        → AreBytes prefix
    go false b cut c e = cc
    go true true cut c e = cc
    go true false cut c e = let is : cut ≡ prefix = cc in subst AreBytes is c

module _ (R : Roaring) (q : StoreQuerier R) (at : ℕ) (index scanned : Bytes → Bytes → ℕ → Bool)
    (live : ℕ → Bool) (S : Serves R q at index scanned live) where
  below_iff :
      (k : Bytes) (v : Value) (i : ℕ)
      → FitsValue v
      → (R.contains (evaluate_less_than R q k v) i ≡ true) ↔ Less index scanned live i k v
  unfolding evaluate_less_than
  below_iff k (string s) i f =
      let e = S.strings k none false (some s) false i in
      (λ h. let (x, _, b, m) = e.0 h in (x, b, m), λ (x, b, m). e.1 (x, refl, b, m))
  below_iff k (number n) i f = elim (Bool-cases (n == 0)) [
    | inl first ↦ rw first (
      λ h. absurd (false≢true (sym (R.contains-empty i) ∙ h)),
      λ (m, b, u, x). absurd (ground arith),
    )
    | inr more ↦
        let e = S.numeric k 0 (n - 1) i (omega arith) in
        rw more (
          λ h. let (m, _, b, u, x) = e.0 h in (m, below_of_pred n m more b, u, x),
          λ (m, b, u, x). e.1 (m, omega arith, omega arith, u, x),
        )
  ]

  at_most_iff :
      (k : Bytes) (v : Value) (i : ℕ)
      → FitsValue v
      → (R.contains (evaluate_less_or_equal_than R q k v) i ≡ true)
        ↔ LessOrEqual index scanned live i k v
  unfolding evaluate_less_or_equal_than
  at_most_iff k (string s) i f =
      let e = S.strings k none false (some s) true i in
      (λ h. let (x, _, b, m) = e.0 h in (x, b, m), λ (x, b, m). e.1 (x, refl, b, m))
  at_most_iff k (number n) i f =
      let e = S.numeric k 0 n i (omega arith) in
      (
        λ h. let (m, _, b, u, x) = e.0 h in (m, b, u, x),
        λ (m, b, u, x). e.1 (m, omega arith, b, u, x),
      )

  over_iff :
      (k : Bytes) (v : Value) (i : ℕ)
      → FitsValue v
      → (R.contains (evaluate_greater_than R q k v) i ≡ true) ↔ Greater index scanned live i k v
  unfolding evaluate_greater_than
  over_iff k (string s) i f =
      let e = S.strings k (some s) false none false i in
      (λ h. let (x, b, _, m) = e.0 h in (x, b, m), λ (x, b, m). e.1 (x, b, refl, m))
  over_iff k (number n) i f = elim (Bool-cases (n == max_uint64)) [
    | inl last ↦ rw last (
      λ h. absurd (false≢true (sym (R.contains-empty i) ∙ h)),
      λ (m, b, u, x). absurd (ground arith),
    )
    | inr more ↦
        let e = S.numeric k (n + 1) max_uint64 i (ground (arith, more, f)) in
        rw more (
          λ h. let (m, b, _, u, x) = e.0 h in (m, omega arith, u, x),
          λ (m, b, u, x). e.1 (m, omega arith, u, u, x),
        )
  ]

  at_least_iff :
      (k : Bytes) (v : Value) (i : ℕ)
      → FitsValue v
      → (R.contains (evaluate_greater_or_equal_than R q k v) i ≡ true)
        ↔ GreaterOrEqual index scanned live i k v
  unfolding evaluate_greater_or_equal_than
  at_least_iff k (string s) i f =
      let e = S.strings k (some s) true none false i in
      (λ h. let (x, b, _, m) = e.0 h in (x, b, m), λ (x, b, m). e.1 (x, b, refl, m))
  at_least_iff k (number n) i f =
      let e = S.numeric k n max_uint64 i f in
      (λ h. let (m, b, _, u, x) = e.0 h in (m, b, u, x), λ (m, b, u, x). e.1 (m, b, u, u, x))

  -- What a term evaluates to: a bitmap of the entities of which `P` holds.
  abbrev Yields : Result R.Bitmap → (ℕ → Type 0) → Type 0
  Yields r P = (b : R.Bitmap) × (r ≡ ok b) × ((i : ℕ) → (R.contains b i ≡ true) ↔ P i)

  difference :
      (a b l : Bool) {P : Type 0}
      → a ≡ l
      → (b ≡ true) ↔ P
      → ((a && not b) ≡ true) ↔ ((l ≡ true) × (¬ P))
  difference true true l e p = (λ h. absurd (false≢true h), λ (_, n). absurd (n (p.0 refl)))
  difference true false l e p = (λ h. (sym e, λ x. false≢true (p.1 x)), λ _. refl)
  difference false b l e p = (λ h. absurd (false≢true h), λ (t, _). e ∙ t)

  negate_if-Yields :
      (neg : Bool) (bm : R.Bitmap) (P : ℕ → Type 0)
      → ((i : ℕ) → (R.contains bm i ≡ true) ↔ P i)
      → Yields (negate_if R q at neg bm) (λ i. Negated index scanned live i neg (P i))
  unfolding negate_if
  negate_if-Yields false bm P e = (bm, refl, e)
  negate_if-Yields true bm P e =
      let (all, p, l) = S.everything in
      (
        R.and_not all bm,
        rw p,
        λ i.
            rw (R.contains-and_not all bm i)
              (difference (R.contains all i) (R.contains bm i) (live i) (l i) (e i)),
      )

  bool_iff : {a b : Bool} → a ≡ b → (a ≡ true) ↔ (b ≡ true)
  bool_iff e = (λ h. sym e ∙ h, λ h. e ∙ h)

  equality-Yields :
      (e : Equality)
      → Yields (evaluate_equality R q at e) (λ i. Meaning index scanned live i (assign e))
  unfolding evaluate_equality
  equality-Yields e =
      let (bm, p, m) = S.read e.var (annot_val e.value) in
      rw p (
        negate_if-Yields e.is_not bm (λ i. index e.var (annot_val e.value) i ≡ true)
          (λ i. bool_iff (m i)))

  glob_bitmap_iff :
      (k p : Bytes) (i : ℕ)
      → AreBytes p
      → (R.contains (glob_bitmap R q k p (is_prefix_glob p)) i ≡ true)
        ↔ ((s : Bytes) × Matches p s × (scanned k s i ≡ true))
  unfolding glob_bitmap
  glob_bitmap_iff k p i bytes = elim (Option-cases (is_prefix_glob p)) [
    | inl full ↦
        let e = S.globs k p i in
        rw full (
          λ h. let (s, m, x) = e.0 h in (s, (glob_match_iff p s).0 m, x),
          λ (s, m, x). e.1 (s, (glob_match_iff p s).1 m, x),
        )
    | inr (prefix, found) ↦
        let e = S.prefixes k prefix i (is_prefix_glob-AreBytes p prefix bytes found) in
        rw found (
          λ h.
              let (s, m, x) = e.0 h in
              (s, (glob_match_iff p s).0 (glob_match-eq-has_prefix p s found ∙ m), x),
          λ (s, m, x).
              e.1 (s, sym (glob_match-eq-has_prefix p s found) ∙ (glob_match_iff p s).1 m, x),
        )
  ]

  glob-Yields :
      (e : GlobExpr)
      → AreBytes e.value
      → Yields (evaluate_glob R q at e) (λ i. Meaning index scanned live i (glob e))
  unfolding evaluate_glob
  glob-Yields e bytes =
      negate_if-Yields e.is_not (glob_bitmap R q e.var e.value (is_prefix_glob e.value))
        (λ i. (s : Bytes) × Matches e.value s × (scanned e.var s i ≡ true))
        (λ i. glob_bitmap_iff e.var e.value i bytes)

  union_strings-lem :
      (k : Bytes) (acc : R.Bitmap) (ss : List Bytes)
      → (b : R.Bitmap) × (union_strings R q at k acc ss ≡ ok b)
        × ((i : ℕ) → R.contains b i ≡ (R.contains acc i || any (λ s. index k s i) ss))
  unfolding union_strings
  union_strings-lem k acc [] = (acc, refl, λ i. ground arith)
  union_strings-lem k acc (s ∷ ss) =
      let (bm, p, m) = S.read k s in
      let (b, u, n) = union_strings-lem k (R.or acc bm) ss in
      (b, rw p u, λ i. ground (arith, m i, n i, R.contains-or acc bm i))

  union_numbers-lem :
      (k : Bytes) (acc : R.Bitmap) (ns : List ℕ)
      → (b : R.Bitmap) × (union_numbers R q at k acc ns ≡ ok b)
        × ((i : ℕ)
            → R.contains b i ≡ (R.contains acc i || any (λ n. index k (numeric_annot_val n) i) ns))
  unfolding union_numbers
  union_numbers-lem k acc [] = (acc, refl, λ i. ground arith)
  union_numbers-lem k acc (s ∷ ss) =
      let (bm, p, m) = S.read k (numeric_annot_val s) in
      let (b, u, n) = union_numbers-lem k (R.or acc bm) ss in
      (b, rw p u, λ i. ground (arith, m i, n i, R.contains-or acc bm i))

  inclusion-Yields :
      (e : Inclusion)
      → Yields (evaluate_inclusion R q at e) (λ i. Meaning index scanned live i (inclusion e))
  unfolding evaluate_inclusion
  inclusion-Yields e = elim (Bool-cases (ltb 0 (length e.values.strings))) [
    | inl some_strings ↦
        let (b, u, n) = union_strings-lem e.var R.empty e.values.strings in
        rw some_strings (
          rw u (
            negate_if-Yields e.is_not b (λ i. any (λ s. index e.var s i) e.values.strings ≡ true)
              (λ i. bool_iff (n i ∙ rw (R.contains-empty i)))))
    | inr no_string ↦
        let (b, u, n) = union_numbers-lem e.var R.empty e.values.numbers in
        rw no_string (
          rw u (
            negate_if-Yields e.is_not b
              (λ i. any (λ s. index e.var (numeric_annot_val s) i) e.values.numbers ≡ true)
              (λ i. bool_iff (n i ∙ rw (R.contains-empty i)))))
  ]

  -- Over a store that serves an index, an index for its scans and a set of live entities, a term
  -- whose comparison, if it is one, is with a number of 64 bits, and whose pattern, if it has one, is
  -- a byte string, evaluates, without an error, to a bitmap that holds exactly the entities that the
  -- term means: those with an equal annotation, or one in the list, in the open or closed range, or
  -- matching the pattern; and for a negated equality, list or pattern the live entities of which
  -- that is not so. Ranges of strings and patterns mean the strings of the scans' index.
  pub evaluate_term-Yields :
      (t : Term)
      → FitsTerm t
      → (b : R.Bitmap) × (evaluate_term R q at t ≡ ok b)
        × ((i : ℕ) → (R.contains b i ≡ true) ↔ Meaning index scanned live i t)
  unfolding evaluate_term
  evaluate_term-Yields (assign e) f = equality-Yields e
  evaluate_term-Yields (inclusion e) f = inclusion-Yields e
  evaluate_term-Yields (less_than e) f =
      (evaluate_less_than R q e.var e.value, refl, λ i. below_iff e.var e.value i f)
  evaluate_term-Yields (less_or_equal_than e) f =
      (evaluate_less_or_equal_than R q e.var e.value, refl, λ i. at_most_iff e.var e.value i f)
  evaluate_term-Yields (greater_than e) f =
      (evaluate_greater_than R q e.var e.value, refl, λ i. over_iff e.var e.value i f)
  evaluate_term-Yields (greater_or_equal_than e) f =
      (evaluate_greater_or_equal_than R q e.var e.value, refl, λ i. at_least_iff e.var e.value i f)
  evaluate_term-Yields (glob e) f = glob-Yields e f

  -- Every term evaluates without an error, also a comparison with a number beyond 64 bits.
  pub evaluate_term-total : (t : Term) → (b : R.Bitmap) × (evaluate_term R q at t ≡ ok b)
  unfolding evaluate_term evaluate_glob
  evaluate_term-total (assign e) = let (b, p, m) = equality-Yields e in (b, p)
  evaluate_term-total (inclusion e) = let (b, p, m) = inclusion-Yields e in (b, p)
  evaluate_term-total (less_than e) = (evaluate_less_than R q e.var e.value, refl)
  evaluate_term-total (less_or_equal_than e) = (evaluate_less_or_equal_than R q e.var e.value, refl)
  evaluate_term-total (greater_than e) = (evaluate_greater_than R q e.var e.value, refl)
  evaluate_term-total (greater_or_equal_than e) =
      (evaluate_greater_or_equal_than R q e.var e.value, refl)
  evaluate_term-total (glob e) =
      let bm = glob_bitmap R q e.var e.value (is_prefix_glob e.value) in
      let (b, p, _) =
        negate_if-Yields e.is_not bm (λ i. R.contains bm i ≡ true) (λ i. (λ h. h, λ h. h)) in
      (b, p)
