-- ===== src/Query/Server/EntityView.antt =====
-- The fields of an entity that a query asks for: `fetchEntityData` and the sorted attributes.
pub mod Sorted
pub mod Asked
use arkiv_storage_service.Base.{
  ℕ, Bool, true, false, not, ◌&&◌, List, [], ◌∷◌, ◌++◌, Option, none, some, if◌then◌else◌, Result,
  ok, fail, error, ◌>>=◌,
}
use arkiv_storage_service.Bytes.{Bytes, codes, lt, has_prefix}
use arkiv_storage_service.Platform.{Text}
use arkiv_storage_service.Roaring.{Roaring}
use arkiv_storage_service.Store.Cache.{Codec}
use arkiv_storage_service.Store.Entity.{Entity, StringAnnot, NumericAnnot}
use arkiv_storage_service.Query.Server.{IncludeData, Attribute, EntityData, Backend}

unfoldable pub synthetic_annot : Bytes → Bool
synthetic_annot key = has_prefix (codes "$") key

unfoldable pub user_annot : Bytes → Bool
user_annot key = not (has_prefix (codes "$") key)

abbrev pub any_annot : Bytes → Bool
any_annot key = true

-- `slices.SortFunc` by the key, as an insertion sort: the library promises no order among equal
-- keys.
module _ {T : Type 0} where
  unfoldable pub insert_attr : Attribute T → List (Attribute T) → List (Attribute T)
  insert_attr a [] = a ∷ []
  insert_attr a (b ∷ bs) =
      let rest = insert_attr a bs in if lt b.key a.key then b ∷ rest else a ∷ b ∷ bs

  unfoldable pub sort_attrs : List (Attribute T) → List (Attribute T)
  unfolding insert_attr
  sort_attrs [] = []
  sort_attrs (a ∷ as') = insert_attr a (sort_attrs as')

  -- `if keep(key) { out = append(out, …) }`
  abbrev pub attr_if : Bool → Bytes → T → List (Attribute T)
  attr_if kept key value = if kept then record { key = key; value = value } ∷ [] else []

abbrev pub kept_strings : (Bytes → Bool) → List StringAnnot → List (Attribute Bytes)
kept_strings keep [] = []
kept_strings keep (a ∷ as') = attr_if (keep a.key) a.key a.value ++ kept_strings keep as'

abbrev pub kept_numbers : (Bytes → Bool) → List NumericAnnot → List (Attribute ℕ)
kept_numbers keep [] = []
kept_numbers keep (a ∷ as') = attr_if (keep a.key) a.key a.value ++ kept_numbers keep as'

-- `s != ""`
abbrev pub not_empty : Bytes → Bool
not_empty [] = false
not_empty (c ∷ s) = true

unfoldable pub string_attrs : Text → Entity → (Bytes → Bool) → List (Attribute Bytes)
string_attrs T e keep =
    kept_strings keep e.string_annotations
    ++ (attr_if (keep (codes "$owner")) (codes "$owner") (T.address_hex e.owner)
        ++ (attr_if (keep (codes "$creator")) (codes "$creator") (T.address_hex e.creator)
            ++ (attr_if (keep (codes "$key")) (codes "$key") (T.hash_hex e.key)
                ++ attr_if (keep (codes "$contentType") && not_empty e.content_type)
                    (codes "$contentType") e.content_type)))

unfoldable pub numeric_attrs : Entity → (Bytes → Bool) → List (Attribute ℕ)
numeric_attrs e keep =
    kept_numbers keep e.numeric_annotations
    ++ (attr_if (keep (codes "$expiration")) (codes "$expiration") e.expires_at
        ++ attr_if (keep (codes "$createdAtBlock")) (codes "$createdAtBlock") e.created_at_block)

unfoldable pub sorted_string_attrs : Text → Entity → (Bytes → Bool) → List (Attribute Bytes)
unfolding string_attrs sort_attrs
sorted_string_attrs T e keep = sort_attrs (string_attrs T e keep)

unfoldable pub sorted_numeric_attrs : Entity → (Bytes → Bool) → List (Attribute ℕ)
unfolding numeric_attrs sort_attrs
sorted_numeric_attrs e keep = sort_attrs (numeric_attrs e keep)

-- the `switch` over the two flags: which keys are kept, if any
unfoldable pub kept_annots : IncludeData → Option (Bytes → Bool)
unfolding user_annot synthetic_annot
kept_annots include =
    if include.attributes && include.synthetic_attributes
    then some any_annot
    else if include.attributes
    then some user_annot
    else if include.synthetic_attributes
    then some synthetic_annot
    else none

abbrev pub attrs_of : {A : Type 0} → ((Bytes → Bool) → List A) → Option (Bytes → Bool) → List A
attrs_of attrs none = []
attrs_of attrs (some keep) = attrs keep

abbrev pub field_if : {A : Type 0} → Bool → A → Option A
field_if asked a = if asked then some a else none

unfoldable pub view_of : Text → IncludeData → Entity → EntityData
unfolding sorted_string_attrs sorted_numeric_attrs kept_annots
view_of T include e = record {
  key = field_if include.key e.key;
  value = field_if include.payload e.payload;
  content_type = field_if include.content_type e.content_type;
  expires_at = field_if include.expiration e.expires_at;
  owner = field_if include.owner e.owner;
  creator = field_if include.creator e.creator;
  created_at_block = field_if include.created_at_block e.created_at_block;
  last_modified_at_block = field_if include.last_modified_at_block e.last_modified_at_block;
  transaction_index_in_block =
      field_if include.transaction_index_in_block e.transaction_index_in_block;
  operation_index_in_transaction =
      field_if include.operation_index_in_transaction e.operation_index_in_transaction;
  string_attributes = attrs_of (sorted_string_attrs T e) (kept_annots include);
  numeric_attributes = attrs_of (sorted_numeric_attrs e) (kept_annots include);
}

abbrev pub decoded_view : Text → IncludeData → Option Entity → Result EntityData
decoded_view T include none = fail (error "decode entity")
decoded_view T include (some e) = ok (view_of T include e)

unfoldable pub fetch_entity_data :
    (R : Roaring) → Text → Codec → Backend R → ℕ → Bytes → IncludeData → Result EntityData
unfolding view_of
fetch_entity_data R T C backend at addr include = do
  d ← backend.get_entity_bytes at addr
  decoded_view T include (C.decode_entity d)
