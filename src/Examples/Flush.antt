-- ===== src/Examples/Flush.antt =====
-- A codec for entities without user annotations, and a flush with it.
use arkiv_storage_service.Base.{
  ℕ, ◌≡◌, refl, ap, subst, ◌∙◌, false, List, [], ◌∷◌, ◌++◌, length, sym, replicate, inl, inr, take,
  drop, ◌==◌, if◌then◌else◌, Option, none, some, ok, arith,
}
use arkiv_storage_service.Bytes.{Bytes, codes, beq}
use arkiv_storage_service.Platform.Sample.{sample_platform, no_accounts}
use arkiv_storage_service.Store.Entity.{AnnotPair, same_pair, Entity, StringAnnot, NumericAnnot}
use arkiv_storage_service.Store.Cache.{pair_eq, staging_put, load_bitmap, Codec, CacheStore}
use arkiv_storage_service.Store.Cache.Views.{entity_at}
use arkiv_storage_service.Base.Assoc
use arkiv_storage_service.Store.Keys.{annot_key, bitmap_key}
use arkiv_storage_service.Store.Flush.Bitmaps.{IsHash, Among, Marshalled, flush_bitmaps-load_bitmap}
use arkiv_storage_service.Store.Flush.{index_pair, set_annot_slot, flush_bitmaps, flush_entities}
use arkiv_storage_service.Store.Flush.Entities.{IsRoundTrip, flush_entities-entity_at}

-- a byte string behind its length
abbrev written : Bytes → Bytes → Bytes
written b rest = length b ∷ (b ++ rest)

abbrev read : {A : Type 0} → Bytes → (Bytes → Bytes → Option A) → Option A
read [] k = none
read (n ∷ s) k = k (take n s) (drop n s)

split-append :
    (b rest : Bytes) → (take (length b) (b ++ rest) ≡ b) × (drop (length b) (b ++ rest) ≡ rest)
split-append [] rest = (refl, refl)
split-append (c ∷ b) rest = let (p, q) = split-append b rest in (ap (λ x. c ∷ x) p, q)

read-written :
    {A : Type 0} (b rest : Bytes) (k : Bytes → Bytes → Option A)
    → read (written b rest) k ≡ k b rest
read-written b rest k = let (p, q) = split-append b rest in rw (p, q) refl

abbrev encode_bare : Entity → List StringAnnot → List NumericAnnot → Option Bytes
encode_bare e (a ∷ strings) numbers = none
encode_bare e [] (a ∷ numbers) = none
encode_bare e [] [] = some (
    e.expires_at
    ∷ e.created_at_block
    ∷ e.last_modified_at_block
    ∷ e.transaction_index_in_block
    ∷ e.operation_index_in_transaction
    ∷ written e.payload
        (written e.owner (written e.creator (written e.content_type (written e.key [])))))

-- what is left to read, from the last string to the first
module _ (n₁ n₂ n₃ n₄ n₅ : ℕ) where
  abbrev read_key : Bytes → Bytes → Bytes → Bytes → Bytes → Bytes → Option Entity
  read_key payload owner creator content_type key rest = some (record {
    payload = payload;
    owner = owner;
    creator = creator;
    expires_at = n₁;
    created_at_block = n₂;
    last_modified_at_block = n₃;
    transaction_index_in_block = n₄;
    operation_index_in_transaction = n₅;
    content_type = content_type;
    key = key;
    string_annotations = [];
    numeric_annotations = [];
  })

  abbrev read_type : Bytes → Bytes → Bytes → Bytes → Bytes → Option Entity
  read_type payload owner creator content_type s =
      read s (read_key payload owner creator content_type)

  abbrev read_creator : Bytes → Bytes → Bytes → Bytes → Option Entity
  read_creator payload owner creator s = read s (read_type payload owner creator)

  abbrev read_owner : Bytes → Bytes → Bytes → Option Entity
  read_owner payload owner s = read s (read_creator payload owner)

  abbrev read_payload : Bytes → Bytes → Option Entity
  read_payload payload s = read s (read_owner payload)

  abbrev strings_of : Bytes → Bytes → Bytes → Bytes → Bytes → Bytes
  strings_of payload owner creator content_type key =
      written payload (written owner (written creator (written content_type (written key []))))

  read-strings_of :
      (a b c d e : Bytes) → read (strings_of a b c d e) read_payload ≡ read_key a b c d e []
  read-strings_of a b c d e =
      read-written a (written b (written c (written d (written e [])))) read_payload
      ∙ (read-written b (written c (written d (written e []))) (read_owner a)
          ∙ (read-written c (written d (written e [])) (read_creator a b)
              ∙ (read-written d (written e []) (read_type a b c)
                  ∙ read-written e [] (read_key a b c d))))

abbrev decode_bare : Bytes → Option Entity
decode_bare (n₁ ∷ n₂ ∷ n₃ ∷ n₄ ∷ n₅ ∷ s) = read s (read_payload n₁ n₂ n₃ n₄ n₅)
decode_bare s = none

abbrev pub bare_codec : Codec
bare_codec = record {
  encode_entity = λ e. encode_bare e e.string_annotations e.numeric_annotations;
  decode_entity = decode_bare;
}

pub bare_codec-IsRoundTrip : IsRoundTrip sample_platform bare_codec
bare_codec-IsRoundTrip e d h = go e.string_annotations e.numeric_annotations refl refl h
  where
    go :
        (strings : List StringAnnot) (numbers : List NumericAnnot)
        → strings ≡ e.string_annotations
        → numbers ≡ e.numeric_annotations
        → encode_bare e strings numbers ≡ some d
        → ((length d == 0) ≡ false) × (decode_bare d ≡ some e)
    go (a ∷ strings) numbers p q k = cc
    go [] (a ∷ numbers) p q k = cc
    go [] [] p q k =
        let body : Bytes =
          e.expires_at
          ∷ e.created_at_block
          ∷ e.last_modified_at_block
          ∷ e.transaction_index_in_block
          ∷ e.operation_index_in_transaction
          ∷ written e.payload
              (written e.owner (written e.creator (written e.content_type (written e.key [])))) in
        let is : body ≡ d = cc in
        let decoded =
          read-strings_of e.expires_at e.created_at_block e.last_modified_at_block
            e.transaction_index_in_block e.operation_index_in_transaction e.payload e.owner
            e.creator e.content_type e.key in
        subst (λ x. ((length x == 0) ≡ false) × (decode_bare x ≡ some e)) is
          (
            ground arith,
            decoded
                ∙ (λ i. some (record e { string_annotations = p i; numeric_annotations = q i })),
          )

abbrev red : Entity
red = record {
  payload = codes "payload";
  owner = codes "the owner";
  creator = codes "the creator";
  expires_at = 100;
  created_at_block = 7;
  last_modified_at_block = 7;
  transaction_index_in_block = 0;
  operation_index_in_transaction = 1;
  content_type = codes "text/plain";
  key = codes "an entity key";
  string_annotations = [];
  numeric_annotations = [];
}

abbrev with_red : CacheStore sample_platform bare_codec
with_red = record {
  staging_db = record { database = []; staging = [] };
  state = no_accounts;
  block_number = 7;
  block_hash = codes "h";
  parent_hash = codes "p";
  dirty_entities = (codes "a", red) ∷ [];
  dirty_bitmaps = [];
}

abbrev flushed : CacheStore sample_platform bare_codec
flushed = record with_red {
  state = record no_accounts {
    code = λ b.
        if beq (codes "a") b
        then (100
            ∷ 7
            ∷ 7
            ∷ 0
            ∷ 1
            ∷ written red.payload (
                written red.owner
                  (written red.creator (written red.content_type (written red.key [])))))
        else [];
  };
}

flushed_ok : flush_entities sample_platform bare_codec with_red ≡ ok flushed
unfolding flush_entities
flushed_ok = refl

-- The entity of the cache is read from the trie after the flush.
flush_entities-entity_at_example :
    entity_at sample_platform bare_codec (record flushed { dirty_entities = [] }) (codes "a")
    ≡ entity_at sample_platform bare_codec with_red (codes "a")
flush_entities-entity_at_example =
    flush_entities-entity_at sample_platform bare_codec bare_codec-IsRoundTrip with_red flushed
      (codes "a") flushed_ok

abbrev fives : List ℕ
fives = replicate 32 5

abbrev color_red : AnnotPair
color_red = (codes "color", codes "red")

abbrev with_bitmap : CacheStore sample_platform bare_codec
with_bitmap = record with_red { dirty_bitmaps = (color_red, fives) ∷ [] }

abbrev bitmap_flushed : CacheStore sample_platform bare_codec
bitmap_flushed = record with_bitmap {
  staging_db =
      index_pair sample_platform bare_codec
        (staging_put sample_platform bare_codec
          (staging_put sample_platform bare_codec with_bitmap.staging_db (bitmap_key fives) fives)
          (annot_key (codes "color") (codes "red")) fives)
        (codes "color") (codes "red");
  state = set_annot_slot sample_platform bare_codec no_accounts (codes "color") (codes "red") fives;
}

bitmap_flushed_ok : flush_bitmaps sample_platform bare_codec with_bitmap ≡ ok bitmap_flushed
unfolding flush_bitmaps
bitmap_flushed_ok = refl

fives-IsHash :
    IsHash sample_platform bare_codec
      (Marshalled sample_platform bare_codec ((color_red, fives) ∷ []))
fives-IsHash = record { width = λ b (bm, a, m). wide b bm a m; apart = λ b d x y e. e }
  where
    wide :
        (b bm : List ℕ)
        → Among sample_platform bare_codec ((color_red, fives) ∷ []) bm
        → some bm ≡ some b
        → length b ≡ 32
    wide b bm (inl e) m = let is : fives ≡ b = cc in ap length (sym is)
    wide b bm (inr a) m = absurd a

color_red_cached : Assoc.lookup pair_eq color_red with_bitmap.dirty_bitmaps ≡ some fives
unfolding Assoc.lookup same_pair beq
color_red_cached = refl

-- The cached bitmap is loaded again after the flush.
flush_bitmaps-load_bitmap_example :
    load_bitmap sample_platform bare_codec bitmap_flushed.staging_db color_red ≡ ok fives
flush_bitmaps-load_bitmap_example =
    flush_bitmaps-load_bitmap sample_platform bare_codec with_bitmap bitmap_flushed color_red fives
      fives-IsHash (refl, tt) refl color_red_cached bitmap_flushed_ok
