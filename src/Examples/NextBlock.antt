-- ===== src/Examples/NextBlock.antt =====
-- A second block over the entity that a first one created, flushed and read again.
use arkiv_storage_service.Base.{
  ℕ, ◌≡◌, refl, sym, ap, ◌∙◌, Bool, true, ◌&&◌, List, [], ◌∷◌, none, some, inl, inr, arith,
}
use arkiv_storage_service.Base.Assoc
use arkiv_storage_service.Bytes.{Bytes, codes, beq}
use arkiv_storage_service.Bytes.Order.{beq_iff}
use arkiv_storage_service.Bytes.BigEndian.{uint64, big_endian, put_uint64, value_from}
use arkiv_storage_service.Platform.Sample.{to_length, length-to_length}
use arkiv_storage_service.Types.{ArkivTransaction, extend}
use arkiv_storage_service.Store.Keys.{
  annot_key, pairs_key, bitmap_key, addr_key, id_key, decode_uint64, encode_uint64, numeric_val,
  no_nul,
}
use arkiv_storage_service.Store.Entity.{AnnotPair, all_annotations, same_pair, apply_attributes}
use arkiv_storage_service.Store.Cache.{
  load_bitmap, staging_get, staging_put, bitmap_add, bitmap_remove, get_entity,
  increment_entity_count,
}
use arkiv_storage_service.Store.Ops.Index.{IsIndexed}
use arkiv_storage_service.Store.Ops.Invariant.{apply_op-IsIndexed}
use arkiv_storage_service.Store.Ops.{address_of, apply_op}
use arkiv_storage_service.Store.Flush.{write_bitmaps, flush_entities, flush_bitmaps}
use arkiv_storage_service.Store.Flush.Bitmaps.{IsHash, Among, Marshalled, NoNulNames}
use arkiv_storage_service.Store.Flush.Kept.{Loads, IsStored}
use arkiv_storage_service.Store.Block.{from_transaction, apply_transactions}
use arkiv_storage_service.Store.Block.Index.{apply_transactions-IsIndexed}
use arkiv_storage_service.Store.Block.Next.{flush-IsReadable, Follows, flush-IsIndexed}
use arkiv_storage_service.Examples.Flush.{bare_codec, bare_codec-IsRoundTrip}
use arkiv_storage_service.Examples.Index.{
  padded, Buffer, or_empty, is_ok, created, first_extend, slots_apart, annots_apart, from_ok,
  created-IsIndexed, created-IsReadable,
}
use arkiv_storage_service.Base.{Option, false}
use arkiv_storage_service.Store.Cache.Views.{entity_at}
use arkiv_storage_service.Store.Entity.{Entity}
use arkiv_storage_service.Store.Ops.Present.{IsReadable, Succeeds, apply_op-Succeeds}
use mathlib.Core.Bool.{false≢true}

-- All bitmaps of the list hold the first entity alone, under names without a NUL.
abbrev all_first : List (AnnotPair × List ℕ) → Bool
all_first [] = true
all_first (((k, v), bm) ∷ m) = no_nul k && (beq bm (1 ∷ []) && all_first m)

all_first-Among :
    (m : List (AnnotPair × List ℕ)) (bm : List ℕ)
    → all_first m ≡ true
    → Among padded bare_codec m bm
    → bm ≡ 1 ∷ []
all_first-Among [] bm h a = absurd a
all_first-Among (((k, v), b) ∷ m) bm h (inl e) = sym e ∙ (beq_iff b (1 ∷ [])).0 (ground (arith, h))
all_first-Among (((k, v), b) ∷ m) bm h (inr a) = all_first-Among m bm (ground (arith, h)) a

all_first-NoNulNames : (m : List (AnnotPair × List ℕ)) → all_first m ≡ true → NoNulNames m
all_first-NoNulNames [] h = tt
all_first-NoNulNames (((k, v), b) ∷ m) h =
    (ground (arith, h), all_first-NoNulNames m (ground (arith, h)))

created_bitmaps : all_first created.dirty_bitmaps ≡ true
unfolding apply_op all_annotations bitmap_add Assoc.lookup load_bitmap staging_put beq addr_key
    annot_key id_key Assoc.insert same_pair Assoc.without apply_attributes get_entity decode_uint64
    uint64 big_endian put_uint64 value_from encode_uint64 bitmap_remove numeric_val
    increment_entity_count
created_bitmaps = refl

Marshalled-first : (d : Bytes) → Marshalled padded bare_codec created.dirty_bitmaps d → d ≡ 1 ∷ []
Marshalled-first d (bm, a, m) =
    let is : bm ≡ d = cc in sym is ∙ all_first-Among created.dirty_bitmaps bm created_bitmaps a

created-IsHash : IsHash padded bare_codec (Marshalled padded bare_codec created.dirty_bitmaps)
created-IsHash = record {
  width = λ b _. length-to_length 32 b;
  apart = λ b d x y _. Marshalled-first b x ∙ sym (Marshalled-first d y);
}

not_there : {b : Bytes} → ¬ (none ≡ some b)
not_there h = cc

no_blob :
    staging_get padded bare_codec created.staging_db (bitmap_key (to_length 32 (1 ∷ []))) ≡ none
unfolding apply_op all_annotations bitmap_add Assoc.lookup load_bitmap staging_put beq addr_key
    annot_key id_key Assoc.insert same_pair Assoc.without apply_attributes get_entity decode_uint64
    uint64 big_endian put_uint64 value_from encode_uint64 bitmap_remove numeric_val
    increment_entity_count bitmap_key
no_blob = refl

created-IsStored : IsStored padded bare_codec created.staging_db created.dirty_bitmaps
created-IsStored b d at x =
    let is : d ≡ 1 ∷ [] = Marshalled-first d x in
    let there : none ≡ some b =
      sym no_blob
      ∙ ap (λ y. staging_get padded bare_codec created.staging_db (bitmap_key (to_length 32 y)))
          (sym is)
      ∙ at in
    absurd (not_there there)

abbrev coded : Buffer
coded = or_empty (flush_entities padded bare_codec created)

abbrev flushed : Buffer
flushed = or_empty (flush_bitmaps padded bare_codec coded)

coded_ok : is_ok (flush_entities padded bare_codec created) ≡ true
unfolding apply_op all_annotations bitmap_add Assoc.lookup load_bitmap staging_put beq addr_key
    annot_key id_key Assoc.insert same_pair Assoc.without apply_attributes get_entity decode_uint64
    uint64 big_endian put_uint64 value_from encode_uint64 bitmap_remove numeric_val
    increment_entity_count flush_entities
coded_ok = refl

write_bitmaps_ok :
    (c : Buffer) (m : List (AnnotPair × List ℕ))
    → is_ok (write_bitmaps padded bare_codec c m) ≡ true
unfolding write_bitmaps
write_bitmaps_ok c [] = refl
write_bitmaps_ok c (((k, v), bm) ∷ m) =
    rw (from_ok (write_bitmaps padded bare_codec c m) (write_bitmaps_ok c m)) refl

flushed_ok : is_ok (flush_bitmaps padded bare_codec coded) ≡ true
unfolding flush_bitmaps
flushed_ok = write_bitmaps_ok coded coded.dirty_bitmaps

-- the next block's buffer
abbrev second : Buffer
second = record flushed { block_number = 8; dirty_entities = []; dirty_bitmaps = [] }

second-Follows : Follows padded bare_codec flushed second
second-Follows = record {
  no_entities = refl;
  no_bitmaps = refl;
  codes = λ a. refl;
  count = refl;
  pointers = λ k v. refl;
  blobs = λ h. refl;
  ids = λ a. refl;
}

second-IsIndexed : IsIndexed padded bare_codec second
second-IsIndexed =
    flush-IsIndexed padded bare_codec created coded flushed second created-IsIndexed
      created-IsReadable bare_codec-IsRoundTrip annots_apart created-IsHash
      (all_first-NoNulNames created.dirty_bitmaps created_bitmaps) created-IsStored
      (from_ok (flush_entities padded bare_codec created) coded_ok)
      (from_ok (flush_bitmaps padded bare_codec coded) flushed_ok) second-Follows

-- The index of the created entity is read from the store after the flush.
flush-IsIndexed_example : IsIndexed padded bare_codec second
flush-IsIndexed_example =
    flush-IsIndexed padded bare_codec created coded flushed second created-IsIndexed
      created-IsReadable bare_codec-IsRoundTrip annots_apart created-IsHash
      (all_first-NoNulNames created.dirty_bitmaps created_bitmaps) created-IsStored
      (from_ok (flush_entities padded bare_codec created) coded_ok)
      (from_ok (flush_bitmaps padded bare_codec coded) flushed_ok) second-Follows

abbrev extending : ArkivTransaction
extending = record {
  hash = codes "t";
  index = 0;
  sender = codes "the sender";
  operations = extend first_extend ∷ [];
}

abbrev extended : Buffer
extended = or_empty (apply_transactions padded bare_codec second (extending ∷ []))

extended_ok : is_ok (apply_transactions padded bare_codec second (extending ∷ [])) ≡ true
unfolding apply_transactions apply_op all_annotations bitmap_add Assoc.lookup load_bitmap
    staging_put beq addr_key annot_key id_key Assoc.insert same_pair Assoc.without apply_attributes
    get_entity decode_uint64 uint64 big_endian put_uint64 value_from encode_uint64 bitmap_remove
    numeric_val increment_entity_count bitmap_key flush_entities flush_bitmaps pairs_key
extended_ok = refl

-- The second block extends the entity of the first one, and its result is indexed.
apply_transactions-IsIndexed_example : IsIndexed padded bare_codec extended
unfolding from_transaction
apply_transactions-IsIndexed_example =
    apply_transactions-IsIndexed padded bare_codec second extended (extending ∷ []) slots_apart
      second-IsIndexed ((tt, λ c r. tt), λ c r. tt)
      (from_ok (apply_transactions padded bare_codec second (extending ∷ [])) extended_ok)

abbrev extended_alone : Buffer
extended_alone = or_empty (apply_op padded bare_codec second (extend first_extend))

extended_alone_ok : is_ok (apply_op padded bare_codec second (extend first_extend)) ≡ true
unfolding apply_op all_annotations bitmap_add Assoc.lookup load_bitmap staging_put beq addr_key
    annot_key id_key Assoc.insert same_pair Assoc.without apply_attributes get_entity decode_uint64
    uint64 big_endian put_uint64 value_from encode_uint64 bitmap_remove numeric_val
    increment_entity_count bitmap_key flush_entities flush_bitmaps pairs_key
extended_alone_ok = refl

-- So is the result of the extension alone.
apply_op-IsIndexed_example : IsIndexed padded bare_codec extended_alone
apply_op-IsIndexed_example =
    apply_op-IsIndexed padded bare_codec second extended_alone (extend first_extend) slots_apart
      second-IsIndexed tt
      (from_ok (apply_op padded bare_codec second (extend first_extend)) extended_alone_ok)

created-Loads : Loads padded bare_codec created.staging_db
unfolding staging_get apply_op all_annotations bitmap_add Assoc.lookup load_bitmap staging_put beq
    addr_key annot_key id_key Assoc.insert same_pair Assoc.without apply_attributes get_entity
    decode_uint64 uint64 big_endian put_uint64 value_from encode_uint64 bitmap_remove numeric_val
    increment_entity_count bitmap_key flush_entities flush_bitmaps pairs_key
created-Loads (k, v) = ([], refl)

second-IsReadable : IsReadable padded bare_codec second
second-IsReadable =
    flush-IsReadable padded bare_codec created coded flushed second created-Loads
      (from_ok (flush_entities padded bare_codec created) coded_ok)
      (from_ok (flush_bitmaps padded bare_codec coded) flushed_ok) second-Follows

abbrev is_some : Option Entity → Bool
is_some none = false
is_some (some e) = true

from_some : (o : Option Entity) → is_some o ≡ true → (e : Entity) × (o ≡ some e)
from_some none h = absurd (false≢true h)
from_some (some e) h = (e, refl)

second_there :
    is_some (entity_at padded bare_codec second (address_of first_extend.entity_key)) ≡ true
unfolding entity_at apply_op all_annotations bitmap_add Assoc.lookup load_bitmap staging_put beq
    addr_key annot_key id_key Assoc.insert same_pair Assoc.without apply_attributes get_entity
    decode_uint64 uint64 big_endian put_uint64 value_from encode_uint64 bitmap_remove numeric_val
    increment_entity_count bitmap_key flush_entities flush_bitmaps pairs_key
second_there = refl

-- In the second block, the entity of the first one can be extended.
apply_op-Succeeds_example :
    Succeeds padded bare_codec (apply_op padded bare_codec second (extend first_extend))
apply_op-Succeeds_example =
    apply_op-Succeeds padded bare_codec second second-IsIndexed.identified second-IsReadable
      (extend first_extend)
      (from_some (entity_at padded bare_codec second (address_of first_extend.entity_key))
        second_there)
