-- ===== src/Store/Block/Index.antt =====
-- The operations of a block keep the index invariant.
use arkiv_storage_service.Base.{◌≡◌, subst, List, [], ◌∷◌, ok, >>=-eq-ok}
use arkiv_storage_service.Platform.{Platform}
use arkiv_storage_service.Types.{ArkivOperation, ArkivTransaction}
use arkiv_storage_service.Store.Cache.{Codec, CacheStore}
use arkiv_storage_service.Store.Ops.{apply_op}
use arkiv_storage_service.Store.Ops.Index.{IsIndexed}
use arkiv_storage_service.Store.Ops.Removal.{SlotsApart}
use arkiv_storage_service.Store.Ops.Invariant.{Admits, apply_op-IsIndexed}
use arkiv_storage_service.Store.Block.{from_transaction, apply_operations, apply_transactions}

module _ (P : Platform) (C : Codec) where
  -- Each operation is admitted in the state that it runs in.
  abbrev pub AdmitsOperations : CacheStore P C → ArkivTransaction → List ArkivOperation → Type 0
  AdmitsOperations c tx [] = Unit
  AdmitsOperations c tx (op ∷ operations) =
      Admits P C c (from_transaction tx op)
      × ((c' : CacheStore P C)
          → apply_op P C c (from_transaction tx op) ≡ ok c'
          → AdmitsOperations c' tx operations)

  abbrev pub AdmitsTransactions : CacheStore P C → List ArkivTransaction → Type 0
  AdmitsTransactions c [] = Unit
  AdmitsTransactions c (tx ∷ transactions) =
      AdmitsOperations c tx tx.operations
      × ((c' : CacheStore P C)
          → apply_operations P C c tx tx.operations ≡ ok c'
          → AdmitsTransactions c' transactions)

  apply_operations-IsIndexed :
      (c c' : CacheStore P C) (tx : ArkivTransaction) (operations : List ArkivOperation)
      → SlotsApart P C
      → IsIndexed P C c
      → AdmitsOperations c tx operations
      → apply_operations P C c tx operations ≡ ok c'
      → IsIndexed P C c'
  unfolding apply_operations
  apply_operations-IsIndexed c c' tx [] apart h a run =
      let same : c ≡ c' = cc in subst (IsIndexed P C) same h
  apply_operations-IsIndexed c c' tx (op ∷ operations) apart h (a, later) run =
      let (c₁, first, rest) = >>=-eq-ok (apply_op P C c (from_transaction tx op)) _ run in
      apply_operations-IsIndexed c₁ c' tx operations apart
        (apply_op-IsIndexed P C c c₁ (from_transaction tx op) apart h a first) (later c₁ first) rest

  -- The operations of a block that all succeed keep the index invariant: each bitmap of a pair whose
  -- name has no NUL holds exactly the ids of the live entities with the pair. Each is admitted in
  -- the state that it runs in, and the slots of the ids are not the slot of the counter.
  pub apply_transactions-IsIndexed :
      (c c' : CacheStore P C) (transactions : List ArkivTransaction)
      → SlotsApart P C
      → IsIndexed P C c
      → AdmitsTransactions c transactions
      → apply_transactions P C c transactions ≡ ok c'
      → IsIndexed P C c'
  unfolding apply_transactions
  apply_transactions-IsIndexed c c' [] apart h a run =
      let same : c ≡ c' = cc in subst (IsIndexed P C) same h
  apply_transactions-IsIndexed c c' (tx ∷ transactions) apart h (a, later) run =
      let (c₁, first, rest) = >>=-eq-ok (apply_operations P C c tx tx.operations) _ run in
      apply_transactions-IsIndexed c₁ c' transactions apart
        (apply_operations-IsIndexed c c₁ tx tx.operations apart h a first) (later c₁ first) rest
