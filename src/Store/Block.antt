-- ===== src/Store/Block.antt =====
-- The operations of a block, in order: the loops of `processBlock` (store/store.go). The first one
-- that fails ends the block.
pub mod Index
pub mod Next
use arkiv_storage_service.Base.{ℕ, List, [], ◌∷◌, Result, ok, ◌>>=◌}
use arkiv_storage_service.Bytes.{Bytes}
use arkiv_storage_service.Platform.{Platform}
use arkiv_storage_service.Types.{
  ArkivOperation, ArkivTransaction, CreateOp, create, update, delete, extend, transfer, expire,
  unset,
}
use arkiv_storage_service.Store.Cache.{Codec, CacheStore}
use arkiv_storage_service.Store.Ops.{apply_op}

-- `op.Create.Sender = tx.Sender` and `op.Create.TxIndex = tx.Index`
unfoldable pub from_transaction : ArkivTransaction → ArkivOperation → ArkivOperation
from_transaction tx (create op) = create (record op { sender = tx.sender; tx_index = tx.index })
from_transaction tx (update op) = update op
from_transaction tx (delete op) = delete op
from_transaction tx (extend op) = extend op
from_transaction tx (transfer op) = transfer op
from_transaction tx (expire op) = expire op
from_transaction tx unset = unset

module _ (P : Platform) (C : Codec) where
  unfoldable pub apply_operations :
      CacheStore P C → ArkivTransaction → List ArkivOperation → Result (CacheStore P C)
  unfolding from_transaction
  apply_operations cs tx [] = ok cs
  apply_operations cs tx (op ∷ operations) = do
    cs' ← apply_op P C cs (from_transaction tx op)
    apply_operations cs' tx operations

  unfoldable pub apply_transactions :
      CacheStore P C → List ArkivTransaction → Result (CacheStore P C)
  unfolding apply_operations
  apply_transactions cs [] = ok cs
  apply_transactions cs (tx ∷ transactions) = do
    cs' ← apply_operations cs tx tx.operations
    apply_transactions cs' transactions
