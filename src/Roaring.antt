-- ===== src/Roaring.antt =====
-- `roaring64.Bitmap` (github.com/RoaringBitmap/roaring), a third-party set of 64-bit numbers: the
-- operations that the service calls, and what it relies on. An in-place operation returns the new
-- set.
pub mod Sample
use arkiv_storage_service.Base.{
  ℕ, ◌≡◌, Bool, true, false, not, ◌&&◌, ◌||◌, ◌==◌, if◌then◌else◌, Option, some, ltb, leb, List,
  any, length,
}
use arkiv_storage_service.Base.Descending.{Descending}
use arkiv_storage_service.Bytes.{Bytes}

pub record Roaring : Type 1 where
  pub Bitmap : Type 0
  pub contains : Bitmap → ℕ → Bool
  -- `New()`
  pub empty : Bitmap
  pub add : Bitmap → ℕ → Bitmap
  pub remove : Bitmap → ℕ → Bitmap
  -- `AddRange`, without its upper bound
  pub add_range : Bitmap → ℕ → ℕ → Bitmap
  -- `Or`, `And` and `AndNot`
  pub or : Bitmap → Bitmap → Bitmap
  pub and : Bitmap → Bitmap → Bitmap
  pub and_not : Bitmap → Bitmap → Bitmap
  -- what `ReverseIterator` returns, one after the other
  pub reverse : Bitmap → List ℕ
  -- `GetCardinality`
  pub cardinality : Bitmap → ℕ
  -- `MarshalBinary` and `UnmarshalBinary`; `none` is an error
  pub marshal : Bitmap → Option Bytes
  pub unmarshal : Bytes → Option Bitmap
  pub contains-empty : (i : ℕ) → contains empty i ≡ false
  pub contains-add : (b : Bitmap) (i j : ℕ) → contains (add b i) j ≡ (i == j || contains b j)
  pub contains-remove :
      (b : Bitmap) (i j : ℕ) → contains (remove b i) j ≡ (not (i == j) && contains b j)
  pub contains-add_range :
      (b : Bitmap) (lo hi i : ℕ)
      → contains (add_range b lo hi) i ≡ ((leb lo i && ltb i hi) || contains b i)
  pub any-reverse : (b : Bitmap) (i : ℕ) → any (λ j. j == i) (reverse b) ≡ contains b i
  pub reverse-Descending : (b : Bitmap) → Descending (reverse b)
  pub cardinality-length : (b : Bitmap) → cardinality b ≡ length (reverse b)
  pub contains-or : (a b : Bitmap) (i : ℕ) → contains (or a b) i ≡ (contains a i || contains b i)
  pub contains-and : (a b : Bitmap) (i : ℕ) → contains (and a b) i ≡ (contains a i && contains b i)
  pub contains-and_not :
      (a b : Bitmap) (i : ℕ) → contains (and_not a b) i ≡ (contains a i && not (contains b i))
  pub unmarshal-marshal : (b : Bitmap) (d : Bytes) → marshal b ≡ some d → unmarshal d ≡ some b
