-- ===== src/Query/Server/Handler/Cursor.antt =====
-- The cursor of a response, and what the next page has left.
use arkiv_storage_service.Base.{
  ℕ, ◌<◌, ◌^◌, ◌≡◌, refl, true, List, [], ◌∷◌, Option, none, some, ok, arith, ltb, ◌≢◌, ◌⊎◌, inl,
  inr,
}
use arkiv_storage_service.Base.Descending.{filter, has-filter, filter-Descending, Descending-unique}
use arkiv_storage_service.Bytes.{Bytes}
use arkiv_storage_service.Platform.{Platform}
use arkiv_storage_service.Store.Cache.{Codec}
use arkiv_storage_service.Query.Server.{Backend, Wire}
use arkiv_storage_service.Query.Server.Defaults.{cursor_of}
use arkiv_storage_service.Query.Server.Page.{Progress, has_next}
use arkiv_storage_service.Query.Server.Handler.{next_cursor, restrict}

pub has_next-cases : (rest : List ℕ) → (rest ≡ []) ⊎ (has_next rest ≡ true)
has_next-cases [] = inl refl
has_next-cases (id ∷ ids) = inr refl

pub cursor_of-some : (W : Wire) (n : ℕ) → n < 2 ^ 64 → cursor_of W (W.encode_uint64 n) ≡ ok (some n)
cursor_of-some W n h = go (W.encode_uint64 n) (W.encode-ne-nil n) (W.decode-encode n h)
  where
    go : (b : Bytes) → b ≢ [] → W.decode_uint64 b ≡ some n → cursor_of W b ≡ ok (some n)
    go [] ne d = absurd (ne refl)
    go (c ∷ cs) ne d = rw d refl

pub next_cursor-none :
    (W : Wire) (rows : List Bytes) (last_id : Option ℕ) (rest : List ℕ)
    → rest ≡ []
    → next_cursor W (record { rows = rows; last_id = last_id; rest = rest }) ≡ none
unfolding next_cursor
next_cursor-none W rows none rest e = refl
next_cursor-none W rows (some id) rest e = rw e refl

pub next_cursor-some :
    (W : Wire) (p : Progress) (l : ℕ)
    → p.last_id ≡ some l
    → has_next p.rest ≡ true
    → next_cursor W p ≡ some (W.encode_uint64 l)
unfolding next_cursor
next_cursor-some W p l at e = rw at (rw e refl)

module _ (P : Platform) (C : Codec) (W : Wire) (backend : Backend P.roaring) where
  open P use {roaring.{Bitmap}}

  -- The cursor keeps what stands below it.
  pub reverse-restrict :
      (c : ℕ) (ids : Bitmap)
      → P.roaring.reverse (restrict P C W backend (some c) ids)
        ≡ filter (λ x. ltb x c) (P.roaring.reverse ids)
  unfolding restrict
  reverse-restrict c ids =
      let mask = P.roaring.add_range P.roaring.empty 0 c in
      let all = P.roaring.reverse ids in
      Descending-unique (P.roaring.reverse (P.roaring.and ids mask)) (filter (λ x. ltb x c) all)
        (P.roaring.reverse-Descending (P.roaring.and ids mask))
        (filter-Descending (λ x. ltb x c) all (P.roaring.reverse-Descending ids))
        (λ i. ground (
          arith,
          P.roaring.any-reverse (P.roaring.and ids mask) i,
          P.roaring.contains-and ids mask i,
          P.roaring.contains-add_range P.roaring.empty 0 c i,
          P.roaring.contains-empty i,
          P.roaring.any-reverse ids i,
          has-filter (λ x. ltb x c) all i,
        ))
