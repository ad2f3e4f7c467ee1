-- ===== src/Query/Server.antt =====
-- query/server.go: the JSON-RPC methods for queries. JSON and hexadecimal numbers are written by
-- other packages (Wire); the parser is a parameter, and so is the store (Backend).
pub mod Defaults
pub mod EntityView
pub mod Page
pub mod Handler
use arkiv_storage_service.Base.{ℕ, ◌<◌, ◌^◌, ◌≡◌, ◌≢◌, Bool, List, [], Option, none, some, Result}
use arkiv_storage_service.Bytes.{Bytes}
use arkiv_storage_service.Roaring.{Roaring}
use arkiv_storage_service.Query.Evaluate.{StoreQuerier}

pub record IncludeData : Type 0 where
  pub key : Bool
  pub attributes : Bool
  pub synthetic_attributes : Bool
  pub payload : Bool
  pub content_type : Bool
  pub expiration : Bool
  pub owner : Bool
  pub creator : Bool
  pub created_at_block : Bool
  pub last_modified_at_block : Bool
  pub transaction_index_in_block : Bool
  pub operation_index_in_transaction : Bool

-- `nil` pointers are `none`, and the empty cursor is the empty string.
pub record Options : Type 0 where
  pub at_block : Option ℕ
  pub include_data : Option IncludeData
  pub results_per_page : Option ℕ
  pub cursor : Bytes

-- `json.RawMessage` is a byte string.
pub record QueryResponse : Type 0 where
  pub rows : List Bytes
  pub block_number : ℕ
  pub cursor : Option Bytes

pub record Attribute (T : Type 0) : Type 0 where
  pub key : Bytes
  pub value : T

-- A field that is not asked for is `none`, or an empty list.
pub record EntityData : Type 0 where
  pub key : Option Bytes
  pub value : Option Bytes
  pub content_type : Option Bytes
  pub expires_at : Option ℕ
  pub owner : Option Bytes
  pub creator : Option Bytes
  pub created_at_block : Option ℕ
  pub last_modified_at_block : Option ℕ
  pub transaction_index_in_block : Option ℕ
  pub operation_index_in_transaction : Option ℕ
  pub string_attributes : List (Attribute Bytes)
  pub numeric_attributes : List (Attribute ℕ)

-- the interface `Backend`
pub record Backend (R : Roaring) : Type 0 where
  pub querier : StoreQuerier R
  pub head_number : ℕ
  pub id_to_address : ℕ → Option Bytes
  pub get_entity_bytes : ℕ → Bytes → Result Bytes

-- `hexutil.EncodeUint64` and `hexutil.DecodeUint64` of go-ethereum, and `json.Marshal`
pub record Wire : Type 0 where
  pub encode_uint64 : ℕ → Bytes
  pub decode_uint64 : Bytes → Option ℕ
  pub marshal : EntityData → Option Bytes
  pub decode-encode : (n : ℕ) → n < 2 ^ 64 → decode_uint64 (encode_uint64 n) ≡ some n
  pub encode-ne-nil : (n : ℕ) → encode_uint64 n ≢ []
