-- ===== src/Examples/Query.antt =====
-- Queries over a store with one annotated entity.
use mathlib.Core.Bool.{false≢true}
use arkiv_storage_service.Base.{
  ℕ, ◌≤◌, ◌≡◌, ◌↔◌, refl, sym, ap, ◌∙◌, Bool, true, false, not, ◌&&◌, ◌||◌, ◌==◌, leb, List, [],
  ◌∷◌, any, all, ok, ◌>>=◌, arith,
}
use arkiv_storage_service.Bytes.{Bytes, codes, beq, has_prefix}
use arkiv_storage_service.Bytes.Order.{beq_iff}
use arkiv_storage_service.Bytes.BigEndian.{put_uint64, max_uint64}
use arkiv_storage_service.Bytes.BigEndian.Laws.{put_uint64_injective}
use arkiv_storage_service.Base.Descending.{has}
use arkiv_storage_service.Roaring.Sample.{list_roaring}
use arkiv_storage_service.Store.Glob.{glob_match}
use arkiv_storage_service.Query.Language.{
  number, Term, assign, less_than, greater_or_equal_than, or_expression, or_nil, or_rhs,
  and_expression, and_nil, and_rhs, paren, term, Expression, AstOr,
}
use arkiv_storage_service.Query.Normalize.{
  is_hex_var, normalize_term, invert_term, normalize_expression,
}
use arkiv_storage_service.Query.Normalize.Meaning.{says, leaf, EachOr, IsTyped}
use arkiv_storage_service.Query.Normalize.Negation.{negation, IsComplement}
use arkiv_storage_service.Query.Normalize.Sound.{normalize_expression-Says}
use arkiv_storage_service.Query.Evaluate.{
  StoreQuerier, numeric_annot_val, evaluate_term, evaluate_or,
}
use arkiv_storage_service.Query.Evaluate.Contract.{above, under, Serves, Meaning}
use arkiv_storage_service.Query.Evaluate.Terms.{evaluate_term-Yields, evaluate_term-total}
use arkiv_storage_service.Query.Evaluate.Inverse.{Compares, evaluate_term-invert_term}
use arkiv_storage_service.Query.Evaluate.Sound.{answers, evaluate_or-says, evaluate_or-negation}

abbrev size : Bytes
size = codes "size"

abbrev five : Bytes
five = put_uint64 5

-- entity 1 has `size = 5`, and entity 2 has nothing
abbrev sample_index : Bytes → Bytes → ℕ → Bool
sample_index k v i = beq k size && beq v five && 1 == i

abbrev sample_live : ℕ → Bool
sample_live i = 1 == i || 2 == i

abbrev one_if : Bool → List ℕ
one_if true = 1 ∷ []
one_if false = []

abbrev sample_querier : StoreQuerier list_roaring
sample_querier = record {
  read_annot_bitmap = λ at k v. ok (one_if (beq k size && beq v five));
  all_entities = λ at. ok (1 ∷ 2 ∷ []);
  iterate_numeric = λ k lo hi. one_if (beq k size && (leb lo 5 && leb 5 hi));
  iterate_string = λ k lo lo_incl hi hi_incl.
      one_if (beq k size && (above lo lo_incl five && under hi hi_incl five));
  iterate_prefix = λ k p. one_if (beq k size && has_prefix p five);
  iterate_glob = λ k p. one_if (beq k size && glob_match p five);
}

has-one_if : (b : Bool) (i : ℕ) → has (one_if b) i ≡ (b && 1 == i)
has-one_if true i = ground arith
has-one_if false i = ground arith

-- A scan by a test of the value finds what the index has.
scan :
    (test : Bytes → Bool) (k : Bytes) (i : ℕ)
    → (has (one_if (beq k size && test five)) i ≡ true)
      ↔ ((s : Bytes) × (test s ≡ true) × (sample_index k s i ≡ true))
scan test k i = (
  λ h.
      let r = (beq_iff five five).1 refl in
      let p = has-one_if (beq k size && test five) i in
      (five, ground (arith, p, h), ground (arith, p, h, r)),
  λ (s, h, m).
      let is : s ≡ five = (beq_iff s five).0 (ground (arith, m)) in
      let h' : test five ≡ true = ap test (sym is) ∙ h in
      ground (arith, has-one_if (beq k size && test five) i, m, h'),
)

sample_serves : Serves list_roaring sample_querier 0 sample_index sample_index sample_live
unfolding numeric_annot_val
sample_serves = record {
  read = λ k v. (
    one_if (beq k size && beq v five),
    refl,
    λ i. ground (arith, has-one_if (beq k size && beq v five) i),
  );
  everything = (1 ∷ 2 ∷ [], refl, λ i. ground arith);
  numeric = numeric_at;
  strings = λ k lo lo_incl hi hi_incl i.
      let (to, from) = scan (λ s. above lo lo_incl s && under hi hi_incl s) k i in
      (
        λ h. let (s, t, m) = to h in (s, ground (arith, t), ground (arith, t), m),
        λ (s, a, u, m). from (s, ground (arith, a, u), m),
      );
  prefixes = λ k p i _. scan (has_prefix p) k i;
  globs = λ k p i. scan (glob_match p) k i;
}
  where
    numeric_at :
        (k : Bytes) (lo hi i : ℕ)
        → lo ≤ max_uint64
        → (has (one_if (beq k size && (leb lo 5 && leb 5 hi))) i ≡ true) ↔ (
            (n : ℕ) × (lo ≤ n)
            × (n ≤ hi)
            × (n ≤ max_uint64)
            × (sample_index k (numeric_annot_val n) i ≡ true))
    numeric_at k lo hi i _ =
        let p = has-one_if (beq k size && (leb lo 5 && leb 5 hi)) i in
        (
          λ h. (
            5,
            ground (arith, p, h),
            ground (arith, p, h),
            omega arith,
            ground (arith, p, h, (beq_iff five five).1 refl),
          ),
          λ (n, l, u, f, m).
              let is : n ≡ 5 =
                put_uint64_injective n 5 (omega (arith, f)) (omega arith)
                  ((beq_iff (put_uint64 n) five).0 (ground (arith, m))) in
              ground (arith, p, m, l, u, is),
        )

abbrev below_six : Term
below_six = less_than (record { var = size; value = number 6 })

-- `size < 6` yields a bitmap with the meaning of the term.
evaluate_term-Yields_example :
    (b : List ℕ) × (evaluate_term list_roaring sample_querier 0 below_six ≡ ok b)
    × ((i : ℕ) → (has b i ≡ true) ↔ Meaning sample_index sample_index sample_live i below_six)
evaluate_term-Yields_example =
    evaluate_term-Yields list_roaring sample_querier 0 sample_index sample_index sample_live
      sample_serves below_six (omega arith)

one_size : Compares sample_index sample_index sample_live 1 below_six
unfolding numeric_annot_val
one_size = (
  5,
  omega arith,
  ground (arith, (beq_iff size size).1 refl, (beq_iff five five).1 refl),
  λ o fits m.
      put_uint64_injective o 5 (omega (arith, fits)) (omega arith)
        ((beq_iff (put_uint64 o) five).0 (ground (arith, m))),
)

-- Entity 1, of size 5, is in exactly one of the results of `size < 6` and its inverse.
evaluate_term-invert_term_example :
    (b b' : List ℕ) × (evaluate_term list_roaring sample_querier 0 below_six ≡ ok b)
    × (evaluate_term list_roaring sample_querier 0 (invert_term below_six) ≡ ok b')
    × (has b' 1 ≡ not (has b 1))
evaluate_term-invert_term_example =
    evaluate_term-invert_term list_roaring sample_querier 0 sample_index sample_index sample_live
      sample_serves below_six 1 (omega arith) one_size

sample_total : (t : Term) → (b : List ℕ) × (evaluate_term list_roaring sample_querier 0 t ≡ ok b)
sample_total =
    evaluate_term-total list_roaring sample_querier 0 sample_index sample_index sample_live
      sample_serves

abbrev lower : Bytes → Bytes
lower b = b

abbrev is_five : Term
is_five = assign (record { var = size; is_not = false; value = number 5 })

-- `size < 6 && !(size = 5 || size >= 6)`
abbrev sample_query : Expression
sample_query =
    or_expression
      (and_expression (term below_six) (
        and_rhs
          (paren true (
            or_expression (and_expression (term is_five) and_nil) (
              or_rhs
                (and_expression
                  (term (greater_or_equal_than (record { var = size; value = number 6 }))) and_nil)
                or_nil)))
          and_nil))
      or_nil

not_hex : is_hex_var size ≡ true → ⊥
unfolding is_hex_var beq
not_hex h = false≢true h

sample-IsTyped : EachOr IsTyped sample_query
unfolding EachOr
sample-IsTyped = ((not_hex, (((not_hex, tt), ((not_hex, tt), tt)), tt)), tt)

-- The query of the example has a normal form that says the same.
normalize_expression-Says_example :
    (ast : AstOr) × (normalize_expression lower sample_query ≡ ok ast)
    × ((v : Term → Bool) → any (all v) ast ≡ says lower v sample_query)
normalize_expression-Says_example = normalize_expression-Says lower sample_query sample-IsTyped

-- It evaluates to the entities of which it holds.
evaluate_or-says_example :
    (b : List ℕ) × ((normalize_expression lower sample_query
        >>= evaluate_or list_roaring sample_querier 0)
      ≡ ok b)
    × ((i : ℕ) → has b i ≡ says lower (answers list_roaring sample_querier 0 i) sample_query)
evaluate_or-says_example =
    evaluate_or-says list_roaring sample_querier 0 sample_total lower sample_query sample-IsTyped

abbrev five_query : Expression
five_query = or_expression (and_expression (term is_five) and_nil) or_nil

five-IsTyped : EachOr IsTyped five_query
unfolding EachOr
five-IsTyped = ((not_hex, tt), tt)

five_opposite :
    EachOr (IsComplement (leaf lower (answers list_roaring sample_querier 0 1))) five_query
unfolding EachOr evaluate_term normalize_term numeric_annot_val invert_term put_uint64
five_opposite = ((refl, tt), tt)

-- `size = 5` and its negation divide the entities: entity 1 is in exactly one of the results.
evaluate_or-negation_example :
    (b b' : List ℕ) × ((normalize_expression lower five_query
        >>= evaluate_or list_roaring sample_querier 0)
      ≡ ok b)
    × ((normalize_expression lower (negation five_query)
          >>= evaluate_or list_roaring sample_querier 0)
        ≡ ok b')
    × (has b' 1 ≡ not (has b 1))
evaluate_or-negation_example =
    evaluate_or-negation list_roaring sample_querier 0 sample_total lower five_query 1 five-IsTyped
      five_opposite
