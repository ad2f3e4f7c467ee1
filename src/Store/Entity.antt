-- ===== src/Store/Entity.antt =====
-- The entity (store/entity.go), its annotation pairs and the decoding of wire attributes
-- (store/ops.go).
pub mod Laws
pub mod Plain
pub mod Attributes
use arkiv_storage_service.Base.{
  ℕ, ◌+◌, ◌-◌, ◌*◌, ◌%◌, ◌^◌, Bool, true, false, ◌&&◌, List, [], ◌∷◌, ◌++◌, map, length, drop, any,
  ltb, ◌==◌, if◌then◌else◌,
}
use arkiv_storage_service.Bytes.{Bytes, codes, beq}
use arkiv_storage_service.Platform.{Text}
use arkiv_storage_service.Types.{Attribute}
use arkiv_storage_service.Store.Keys.{numeric_val}

pub record StringAnnot : Type 0 where
  pub key : Bytes
  pub value : Bytes

pub record NumericAnnot : Type 0 where
  pub key : Bytes
  pub value : ℕ

pub record Entity : Type 0 where
  pub payload : Bytes
  pub owner : Bytes
  pub creator : Bytes
  pub expires_at : ℕ
  pub created_at_block : ℕ
  pub last_modified_at_block : ℕ
  pub transaction_index_in_block : ℕ
  pub operation_index_in_transaction : ℕ
  pub content_type : Bytes
  pub key : Bytes
  pub string_annotations : List StringAnnot
  pub numeric_annotations : List NumericAnnot

-- `annotPair`, and `==` on it
abbrev pub AnnotPair : Type 0
AnnotPair = Bytes × Bytes

unfoldable pub same_pair : AnnotPair → AnnotPair → Bool
same_pair (k, v) (k', v') = beq k k' && beq v v'

-- `_, ok := set[pair]`, of the set that `annotPairSet` builds
unfoldable pub has_pair : List AnnotPair → AnnotPair → Bool
unfolding same_pair
has_pair pairs p = any (same_pair p) pairs

-- the keys of the map that `annotPairSet` builds, each once
unfoldable pub annot_pair_set : List AnnotPair → List AnnotPair
unfolding has_pair
annot_pair_set [] = []
annot_pair_set (p ∷ pairs) =
    if has_pair pairs p then annot_pair_set pairs else p ∷ annot_pair_set pairs

-- `attrUint64`: `v<<8 | b` on 64 bits, over the last eight bytes
unfoldable pub shift_in : ℕ → Bytes → ℕ
shift_in v [] = v
shift_in v (b ∷ bs) = shift_in (v * 256 % 2 ^ 64 + b) bs

unfoldable pub attr_uint64 : Bytes → ℕ
unfolding shift_in
attr_uint64 b = shift_in 0 (if ltb 8 (length b) then drop (length b - 8) b else b)

-- `strings.TrimRight(s, "\x00")`
unfoldable pub trim_nul : Bytes → Bytes
trim_nul [] = []
trim_nul (c ∷ s) = elim (trim_nul s) [ [] ↦ if c == 0 then [] else c ∷ [] | d ∷ t ↦ c ∷ d ∷ t ]

module _ (T : Text) where
  open T use {address_hex, hash_hex, bytes_to_hash, to_lower}

  unfoldable pub builtin_annotations : Entity → List AnnotPair
  builtin_annotations e =
      (codes "$all", codes "true")
      ∷ (codes "$creator", to_lower (address_hex e.creator))
      ∷ (codes "$createdAtBlock", numeric_val e.created_at_block)
      ∷ (codes "$lastModifiedAtBlock", numeric_val e.last_modified_at_block)
      ∷ (codes "$owner", to_lower (address_hex e.owner))
      ∷ (codes "$key", to_lower (hash_hex e.key))
      ∷ (codes "$expiration", numeric_val e.expires_at)
      ∷ (codes "$contentType", e.content_type)
      ∷ []

  unfoldable pub user_annotations : Entity → List AnnotPair
  user_annotations e =
      map (λ (a : StringAnnot). (a.key, a.value)) e.string_annotations
      ++ map (λ (a : NumericAnnot). (a.key, numeric_val a.value)) e.numeric_annotations

  unfoldable pub all_annotations : Entity → List AnnotPair
  unfolding builtin_annotations user_annotations
  all_annotations e = builtin_annotations e ++ user_annotations e

  -- one round of `applyAttributes`, its `switch`
  unfoldable pub apply_attribute : Entity → Attribute → Entity
  unfolding attr_uint64 trim_nul
  apply_attribute e a =
      if beq a.value_type (codes "string")
      then record e {
        string_annotations =
            e.string_annotations ++ record { key = a.name; value = trim_nul a.value } ∷ [];
      }
      else if beq a.value_type (codes "uint")
      then record e {
        numeric_annotations =
            e.numeric_annotations ++ record { key = a.name; value = attr_uint64 a.value } ∷ [];
      }
      else if beq a.value_type (codes "entityKey")
      then record e {
        string_annotations =
            e.string_annotations
            ++ record { key = a.name; value = to_lower (hash_hex (bytes_to_hash a.value)) } ∷ [];
      }
      else e

  unfoldable pub apply_attributes : Entity → List Attribute → Entity
  unfolding apply_attribute
  apply_attributes e [] = e
  apply_attributes e (a ∷ attrs) = apply_attributes (apply_attribute e a) attrs
