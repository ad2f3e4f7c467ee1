-- ===== src/Query/Evaluate.antt =====
-- query/evaluate.go: a normal form is evaluated against the store's bitmaps. The bitmaps that the
-- store hands out are fresh, so the in-place operations of the source touch no other value.
pub mod Contract
pub mod Sound
pub mod Inverse
pub mod Terms
use arkiv_storage_service.Base.{
  ℕ, ◌+◌, ◌-◌, Bool, true, false, List, [], ◌∷◌, Option, none, some, length, ltb, ◌==◌,
  if◌then◌else◌, Result, ok, fail, ◌>>=◌,
}
use arkiv_storage_service.Bytes.{Bytes}
use arkiv_storage_service.Bytes.BigEndian.{put_uint64, max_uint64}
use arkiv_storage_service.Roaring.{Roaring}
use arkiv_storage_service.Store.Glob.{is_prefix_glob}
use arkiv_storage_service.Query.Language.{
  Value, string, number, Comparison, Equality, Inclusion, GlobExpr, Term, assign, inclusion,
  less_than, less_or_equal_than, greater_than, greater_or_equal_than, glob, AstAnd, AstOr, Ast,
}

-- the interface `StoreQuerier`; a bound of `IterateStringAnnotBitmaps` may be absent
pub record StoreQuerier (R : Roaring) : Type 0 where
  pub read_annot_bitmap : ℕ → Bytes → Bytes → Result R.Bitmap
  pub all_entities : ℕ → Result R.Bitmap
  pub iterate_numeric : Bytes → ℕ → ℕ → R.Bitmap
  pub iterate_string : Bytes → Option Bytes → Bool → Option Bytes → Bool → R.Bitmap
  pub iterate_prefix : Bytes → Bytes → R.Bitmap
  pub iterate_glob : Bytes → Bytes → R.Bitmap

unfoldable pub numeric_annot_val : ℕ → Bytes
numeric_annot_val v = put_uint64 v

unfoldable pub annot_val : Value → Bytes
annot_val (string s) = s
annot_val (number n) = numeric_annot_val n

module _ (R : Roaring) (q : StoreQuerier R) where
  open R use {Bitmap, empty, or, and, and_not}
  open q use {
    read_annot_bitmap, all_entities, iterate_numeric, iterate_string, iterate_prefix, iterate_glob,
  }

  unfoldable pub evaluate_less_than : Bytes → Value → Bitmap
  evaluate_less_than var (string s) = iterate_string var none false (some s) false
  evaluate_less_than var (number n) = if n == 0 then empty else iterate_numeric var 0 (n - 1)

  unfoldable pub evaluate_less_or_equal_than : Bytes → Value → Bitmap
  evaluate_less_or_equal_than var (string s) = iterate_string var none false (some s) true
  evaluate_less_or_equal_than var (number n) = iterate_numeric var 0 n

  unfoldable pub evaluate_greater_than : Bytes → Value → Bitmap
  evaluate_greater_than var (string s) = iterate_string var (some s) false none false
  evaluate_greater_than var (number n) =
      if n == max_uint64 then empty else iterate_numeric var (n + 1) max_uint64

  unfoldable pub evaluate_greater_or_equal_than : Bytes → Value → Bitmap
  evaluate_greater_or_equal_than var (string s) = iterate_string var (some s) true none false
  evaluate_greater_or_equal_than var (number n) = iterate_numeric var n max_uint64

  -- `if e.IsNot { all.AndNot(bm) … }`, the last lines of three functions
  unfoldable pub negate_if : ℕ → Bool → Bitmap → Result Bitmap
  negate_if at true bm = do everything ← all_entities at; ok (and_not everything bm)
  negate_if at false bm = ok bm

  unfoldable pub evaluate_equality : ℕ → Equality → Result Bitmap
  unfolding negate_if annot_val
  evaluate_equality at e = do
    bm ← read_annot_bitmap at e.var (annot_val e.value)
    negate_if at e.is_not bm

  unfoldable pub glob_bitmap : Bytes → Bytes → Option Bytes → Bitmap
  glob_bitmap var pattern (some prefix) = iterate_prefix var prefix
  glob_bitmap var pattern none = iterate_glob var pattern

  unfoldable pub evaluate_glob : ℕ → GlobExpr → Result Bitmap
  unfolding negate_if glob_bitmap
  evaluate_glob at e = negate_if at e.is_not (glob_bitmap e.var e.value (is_prefix_glob e.value))

  -- the loops over `e.Values.Strings` and `e.Values.Numbers`
  unfoldable pub union_strings : ℕ → Bytes → Bitmap → List Bytes → Result Bitmap
  union_strings at var union [] = ok union
  union_strings at var union (s ∷ rest) = do
    bm ← read_annot_bitmap at var s
    union_strings at var (or union bm) rest

  unfoldable pub union_numbers : ℕ → Bytes → Bitmap → List ℕ → Result Bitmap
  union_numbers at var union [] = ok union
  union_numbers at var union (n ∷ rest) = do
    bm ← read_annot_bitmap at var (numeric_annot_val n)
    union_numbers at var (or union bm) rest

  unfoldable pub evaluate_inclusion : ℕ → Inclusion → Result Bitmap
  unfolding negate_if union_strings union_numbers
  evaluate_inclusion at e = do
    union ←
        if ltb 0 (length e.values.strings)
        then union_strings at e.var empty e.values.strings
        else union_numbers at e.var empty e.values.numbers
    negate_if at e.is_not union

  -- `ASTTerm.Evaluate`
  unfoldable pub evaluate_term : ℕ → Term → Result Bitmap
  unfolding evaluate_less_than evaluate_less_or_equal_than evaluate_greater_than
      evaluate_greater_or_equal_than evaluate_equality evaluate_glob evaluate_inclusion
  evaluate_term at (assign e) = evaluate_equality at e
  evaluate_term at (inclusion e) = evaluate_inclusion at e
  evaluate_term at (less_than e) = ok (evaluate_less_than e.var e.value)
  evaluate_term at (less_or_equal_than e) = ok (evaluate_less_or_equal_than e.var e.value)
  evaluate_term at (greater_than e) = ok (evaluate_greater_than e.var e.value)
  evaluate_term at (greater_or_equal_than e) = ok (evaluate_greater_or_equal_than e.var e.value)
  evaluate_term at (glob e) = evaluate_glob at e

  -- the rounds of `ASTAnd.Evaluate` after the first, which set `result`
  unfoldable pub and_rounds : ℕ → Bitmap → List Term → Result Bitmap
  and_rounds at result [] = ok result
  and_rounds at result (t ∷ ts) = do bm ← evaluate_term at t; and_rounds at (and result bm) ts

  -- `ASTAnd.Evaluate`
  unfoldable pub evaluate_and : ℕ → AstAnd → Result Bitmap
  unfolding and_rounds
  evaluate_and at [] = ok empty
  evaluate_and at (t ∷ ts) = do bm ← evaluate_term at t; and_rounds at bm ts

  unfoldable pub or_rounds : ℕ → Bitmap → AstOr → Result Bitmap
  unfolding evaluate_and
  or_rounds at result [] = ok result
  or_rounds at result (c ∷ cs) = do bm ← evaluate_and at c; or_rounds at (or result bm) cs

  -- `ASTOr.Evaluate`
  unfoldable pub evaluate_or : ℕ → AstOr → Result Bitmap
  unfolding or_rounds
  evaluate_or at terms = or_rounds at empty terms

  -- `AST.Evaluate`, with `ASTExpr.Evaluate`
  unfoldable pub evaluate : ℕ → Ast → Result Bitmap
  unfolding evaluate_or
  evaluate at ast = elim ast.expr [ some e ↦ evaluate_or at e | none ↦ all_entities at ]
