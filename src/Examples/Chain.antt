-- ===== src/Examples/Chain.antt =====
-- A store that processes a block, and reverts it.
use mathlib.Core.Bool.{false≢true}
use arkiv_storage_service.Base.{
  Result, fail, some, Bool, true, false, sym, ◌∙◌, ◌≡◌, ◌≢◌, refl, ap, [], ◌∷◌, length, replicate,
  none, ok, arith,
}
use arkiv_storage_service.Base.Assoc.{lookup}
use arkiv_storage_service.Bytes.{Bytes, codes, beq, lt, has_prefix}
use arkiv_storage_service.Bytes.BigEndian.{put_uint64}
use arkiv_storage_service.Platform.Sample.{sample_platform, no_accounts, Accounts, state_at}
use arkiv_storage_service.Types.{ArkivBlock, ArkivBlockRef}
use arkiv_storage_service.Store.Cache.{Codec, zero_hash}
use arkiv_storage_service.Store.Keys.{root_key, parent_key, pairs_key, annot_key}
use arkiv_storage_service.Store.Reading.{Store, new_store}
use arkiv_storage_service.Store.Revert.{root_or_empty, revert_past}
use arkiv_storage_service.Store.Revert.Pointers.{slot_pointer, revert_past-pointer}
use arkiv_storage_service.Platform.Sample.Listed.{key_eq}
use arkiv_storage_service.Store.Chain.{process_block, revert_one, reorg}
use arkiv_storage_service.Store.Chain.Restart.{IsDurable, reorg-IsDurable}
use arkiv_storage_service.Store.Chain.Undo.{ref_of, IsBackAt, revert_one-process_block}

abbrev no_codec : Codec
no_codec = record { encode_entity = λ e. none; decode_entity = λ d. none }

abbrev empty : Store sample_platform no_codec
empty = record { raw_db = []; head_root = replicate 32 0; head_hash = zero_hash; head_number = 0 }

abbrev first_block : ArkivBlock
first_block = record {
  header = record {
    number = 1;
    hash = replicate 32 1;
    parent_hash = zero_hash;
    changeset_hash = [];
  };
  transactions = [];
}

empty-IsDurable : IsDurable sample_platform no_codec empty
unfolding new_store lookup
empty-IsDurable = refl

-- A reorganisation that only adds a block.
reorg-IsDurable_example :
    IsDurable sample_platform no_codec
      (reorg sample_platform no_codec empty [] (first_block ∷ [])).0
reorg-IsDurable_example =
    reorg-IsDurable sample_platform no_codec empty [] (first_block ∷ []) empty-IsDurable tt
      (omega arith, refl, tt)

abbrev after : Store sample_platform no_codec
after = (process_block sample_platform no_codec empty first_block).0

processed : process_block sample_platform no_codec empty first_block ≡ (after, ok (replicate 32 7))
unfolding process_block
processed = refl

long : length zero_hash ≡ 32
unfolding put_uint64
long = refl

apart : replicate 32 1 ≢ zero_hash
unfolding beq put_uint64
apart h = false≢true (ap (λ b. beq b (replicate 32 1)) (sym h) ∙ refl)

no_root :
    root_or_empty sample_platform no_codec (lookup key_eq (root_key zero_hash) []) ≡ replicate 32 0
unfolding lookup
no_root = refl

-- The first block is reverted to the empty store.
revert_one-process_block_example :
    (s₂ : Store sample_platform no_codec) × (revert_one sample_platform no_codec after
        (ref_of sample_platform no_codec empty first_block)
      ≡ (s₂, ok (replicate 32 0)))
    × IsBackAt sample_platform no_codec empty first_block s₂
revert_one-process_block_example =
    revert_one-process_block sample_platform no_codec empty first_block after (replicate 32 7)
      no_accounts processed refl long apart refl no_root refl

abbrev nines : Bytes
nines = replicate 32 9

-- the first block has written the pointer of `size = 5`
abbrev pointing : Store sample_platform no_codec
pointing = record {
  raw_db =
      (parent_key first_block.header.hash, zero_hash)
      ∷ (pairs_key (codes "size") (put_uint64 5), 1 ∷ [])
      ∷ (annot_key (codes "size") (put_uint64 5), nines)
      ∷ [];
  head_root = replicate 32 1;
  head_hash = first_block.header.hash;
  head_number = 1;
}

abbrev first_ref : ArkivBlockRef
first_ref = record { number = 1; hash = first_block.header.hash }

abbrev or_pointing : Result (Store sample_platform no_codec) → Store sample_platform no_codec
or_pointing (ok s) = s
or_pointing (fail why) = pointing

abbrev is_ok : Result (Store sample_platform no_codec) → Bool
is_ok (ok s) = true
is_ok (fail why) = false

from_ok : (r : Result (Store sample_platform no_codec)) → is_ok r ≡ true → r ≡ ok (or_pointing r)
from_ok (ok s) h = refl
from_ok (fail why) h = absurd (false≢true h)

abbrev back : Store sample_platform no_codec
back = or_pointing (revert_past sample_platform no_codec pointing first_ref (first_ref ∷ []))

goes_back : is_ok (revert_past sample_platform no_codec pointing first_ref (first_ref ∷ [])) ≡ true
unfolding revert_past lookup beq parent_key annot_key pairs_key lt has_prefix
goes_back = refl

pair_there : lookup key_eq (pairs_key (codes "size") (put_uint64 5)) pointing.raw_db ≡ some (1 ∷ [])
unfolding lookup beq pairs_key parent_key put_uint64
pair_there = refl

-- The revert takes the pointer away, since the slot at the empty root is zero.
revert_past-pointer_example :
    (sdb : Accounts) × (some (state_at back.head_root) ≡ some sdb)
    × (lookup key_eq (annot_key (codes "size") (put_uint64 5)) back.raw_db
        ≡ slot_pointer sample_platform no_codec sdb (codes "size") (put_uint64 5))
revert_past-pointer_example =
    revert_past-pointer sample_platform no_codec pointing back first_ref (first_ref ∷ [])
      (from_ok (revert_past sample_platform no_codec pointing first_ref (first_ref ∷ [])) goes_back)
      (codes "size") (put_uint64 5) (1 ∷ []) refl pair_there
