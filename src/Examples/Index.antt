-- ===== src/Examples/Index.antt =====
-- The creation of an entity in an empty store, whose hashes have 32 bytes.
use mathlib.Core.Bool.{false≢true}
use arkiv_storage_service.Base.{
  ℕ, ◌≡◌, refl, sym, ap, subst, ◌∙◌, Bool, true, false, List, [], none, some, ok, fail, Result,
  arith,
}
use arkiv_storage_service.Base.Assoc
use arkiv_storage_service.Bytes.{Bytes, codes, beq, has_prefix}
use arkiv_storage_service.Bytes.BigEndian.{uint64, big_endian, put_uint64, value_from}
use arkiv_storage_service.Base.Descending.{has}
use arkiv_storage_service.Platform.{Platform}
use arkiv_storage_service.Platform.Sample.{sample_platform, plain_text, no_accounts, to_length}
use arkiv_storage_service.Types.{CreateOp, ExtendOp, create, extend}
use arkiv_storage_service.Store.Keys.{
  annot_key, addr_key, id_key, decode_uint64, encode_uint64, numeric_val,
}
use arkiv_storage_service.Store.Entity.{
  Entity, AnnotPair, all_annotations, same_pair, apply_attributes,
}
use arkiv_storage_service.Store.Cache.{
  CacheStore, cached_bitmap, load_bitmap, staging_get, staging_put, bitmap_add, bitmap_remove,
  get_entity, id_slot_key, read_entity_count,
}
use arkiv_storage_service.Store.Cache.Views.{entity_at}
use arkiv_storage_service.Store.Ops.{address_of}
use arkiv_storage_service.Store.Ops.Index.{IsIndexed}
use arkiv_storage_service.Store.Ops.Removal.{SlotsApart}
use arkiv_storage_service.Store.Ops.Invariant.{apply_op-IsIndexed}
use arkiv_storage_service.Store.Ops.Present.{IsReadable, apply_op-Succeeds}
use arkiv_storage_service.Store.Ops.{apply_op}
use arkiv_storage_service.Store.Flush.{annot_slot_key}
use arkiv_storage_service.Store.Flush.Kept.{AnnotSlotsApart}
use arkiv_storage_service.Examples.Flush.{bare_codec}
use arkiv_storage_service.Store.Ops.Absent.{Fails, apply_op-Fails}

-- hashes of 32 bytes
abbrev pub padded : Platform
padded = record sample_platform { text = record plain_text { keccak = to_length 32 } }

abbrev pub Buffer : Type 0
Buffer = CacheStore padded bare_codec

abbrev pub empty_buffer : Buffer
empty_buffer = record {
  staging_db = record { database = []; staging = [] };
  state = no_accounts;
  block_number = 7;
  block_hash = codes "h";
  parent_hash = codes "p";
  dirty_entities = [];
  dirty_bitmaps = [];
}

pub slots_apart : SlotsApart padded bare_codec
unfolding id_slot_key
slots_apart n e = ground arith

pub annots_apart : AnnotSlotsApart padded bare_codec
unfolding annot_slot_key
annots_apart k v e = ground arith

no_entity : (a : Bytes) → entity_at padded bare_codec empty_buffer a ≡ none
unfolding entity_at Assoc.lookup
no_entity a = refl

no_bitmap : (q : AnnotPair) → cached_bitmap padded bare_codec empty_buffer q ≡ ok []
unfolding cached_bitmap load_bitmap staging_get Assoc.lookup
no_bitmap (k, v) = refl

empty_bitmap :
    (q : AnnotPair) (bm : List ℕ) (j : ℕ)
    → cached_bitmap padded bare_codec empty_buffer q ≡ ok bm
    → has bm j ≡ false
empty_bitmap q bm j k =
    let same : ok [] ≡ ok bm = sym (no_bitmap q) ∙ k in
    let is : [] ≡ bm = cc in ap (λ x. has x j) (sym is)

no_some : (a : Bytes) (e : Entity) → ¬ (entity_at padded bare_codec empty_buffer a ≡ some e)
no_some a e k = let same : none ≡ some e = sym (no_entity a) ∙ k in ground arith

empty_buffer-IsIndexed : IsIndexed padded bare_codec empty_buffer
empty_buffer-IsIndexed = record {
  exact = λ q bm w k j. (
    λ h. absurd (false≢true (sym (empty_bitmap q bm j k) ∙ h)),
    λ (a, e, l, m). absurd (no_some a e l.entity),
  );
  identified = λ a e k. absurd (no_some a e k);
  counted = λ a e j l. absurd (no_some a e l.entity);
  unique = λ a b e f j l l'. absurd (no_some a e l.entity);
  plain = λ a e k. absurd (no_some a e k);
}

abbrev pub first_create : CreateOp
first_create = record {
  op_index = 0;
  entity_key = codes "an entity key of thirty-two byte";
  sender = [];
  tx_index = 0;
  owner = codes "the owner";
  expires_at = 100;
  entity_hash = [];
  changeset_hash = [];
  payload = codes "payload";
  content_type = codes "text/plain";
  attributes = [];
}

abbrev pub or_empty : Result Buffer → Buffer
or_empty (ok c) = c
or_empty (fail f) = empty_buffer

abbrev pub is_ok : Result Buffer → Bool
is_ok (ok c) = true
is_ok (fail f) = false

pub from_ok : (r : Result Buffer) → is_ok r ≡ true → r ≡ ok (or_empty r)
from_ok (ok c) h = refl
from_ok (fail f) h = absurd (false≢true h)

abbrev pub created : Buffer
created = or_empty (apply_op padded bare_codec empty_buffer (create first_create))

created_ok : is_ok (apply_op padded bare_codec empty_buffer (create first_create)) ≡ true
unfolding apply_op all_annotations bitmap_add Assoc.lookup load_bitmap staging_put beq addr_key
    annot_key id_key Assoc.insert same_pair Assoc.without apply_attributes get_entity decode_uint64
    uint64 big_endian put_uint64 value_from encode_uint64 bitmap_remove numeric_val
created_ok = refl

pub created_run : apply_op padded bare_codec empty_buffer (create first_create) ≡ ok created
created_run = from_ok (apply_op padded bare_codec empty_buffer (create first_create)) created_ok

pub created-IsIndexed : IsIndexed padded bare_codec created
unfolding read_entity_count value_from beq has_prefix
created-IsIndexed =
    apply_op-IsIndexed padded bare_codec empty_buffer created (create first_create) slots_apart
      empty_buffer-IsIndexed
      (ground arith, no_entity (address_of first_create.entity_key), refl, tt) created_run

pub created-IsReadable : IsReadable padded bare_codec created
created-IsReadable =
    let (c, run, h) =
      apply_op-Succeeds padded bare_codec empty_buffer empty_buffer-IsIndexed.identified
        (λ q. ([], no_bitmap q)) (create first_create) tt in
    let same : ok c ≡ ok created = sym run ∙ created_run in
    let is : c ≡ created = cc in subst (IsReadable padded bare_codec) is h

abbrev pub first_extend : ExtendOp
first_extend = record {
  op_index = 1;
  entity_key = codes "an entity key of thirty-two byte";
  owner = codes "the owner";
  expires_at = 200;
  entity_hash = [];
  changeset_hash = [];
}

-- Nothing can be extended in an empty store.
apply_op-Fails_example :
    Fails padded bare_codec (apply_op padded bare_codec empty_buffer (extend first_extend))
apply_op-Fails_example =
    apply_op-Fails padded bare_codec empty_buffer (extend first_extend)
      (no_entity (address_of first_extend.entity_key))
