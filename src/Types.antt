-- ===== src/Types.antt =====
-- types/types.go: what the chain forwards. Hashes and addresses are byte strings of 32 and 20 bytes.
use arkiv_storage_service.Base.{ℕ, List}
use arkiv_storage_service.Bytes.{Bytes}

pub record Attribute : Type 0 where
  pub value_type : Bytes
  pub name : Bytes
  pub value : Bytes

-- `sender` and `tx_index` are filled in from the transaction by `processBlock`.
pub record CreateOp : Type 0 where
  pub op_index : ℕ
  pub entity_key : Bytes
  pub sender : Bytes
  pub tx_index : ℕ
  pub owner : Bytes
  pub expires_at : ℕ
  pub entity_hash : Bytes
  pub changeset_hash : Bytes
  pub payload : Bytes
  pub content_type : Bytes
  pub attributes : List Attribute

pub record UpdateOp : Type 0 where
  pub op_index : ℕ
  pub entity_key : Bytes
  pub owner : Bytes
  pub entity_hash : Bytes
  pub changeset_hash : Bytes
  pub payload : Bytes
  pub content_type : Bytes
  pub attributes : List Attribute

pub record DeleteOp : Type 0 where
  pub op_index : ℕ
  pub entity_key : Bytes
  pub owner : Bytes
  pub entity_hash : Bytes
  pub changeset_hash : Bytes

pub record ExtendOp : Type 0 where
  pub op_index : ℕ
  pub entity_key : Bytes
  pub owner : Bytes
  pub expires_at : ℕ
  pub entity_hash : Bytes
  pub changeset_hash : Bytes

pub record TransferOp : Type 0 where
  pub op_index : ℕ
  pub entity_key : Bytes
  pub owner : Bytes
  pub entity_hash : Bytes
  pub changeset_hash : Bytes

pub record ExpireOp : Type 0 where
  pub op_index : ℕ
  pub entity_key : Bytes
  pub owner : Bytes
  pub entity_hash : Bytes
  pub changeset_hash : Bytes

-- One pointer of the struct is set, or (`unset`) none.
pub data ArkivOperation : Type 0 where
  create : CreateOp → ArkivOperation
  update : UpdateOp → ArkivOperation
  delete : DeleteOp → ArkivOperation
  extend : ExtendOp → ArkivOperation
  transfer : TransferOp → ArkivOperation
  expire : ExpireOp → ArkivOperation
  unset : ArkivOperation

pub record ArkivBlockHeader : Type 0 where
  pub number : ℕ
  pub hash : Bytes
  pub parent_hash : Bytes
  pub changeset_hash : Bytes

pub record ArkivTransaction : Type 0 where
  pub hash : Bytes
  pub index : ℕ
  pub sender : Bytes
  pub operations : List ArkivOperation

pub record ArkivBlock : Type 0 where
  pub header : ArkivBlockHeader
  pub transactions : List ArkivTransaction

pub record ArkivBlockRef : Type 0 where
  pub number : ℕ
  pub hash : Bytes
