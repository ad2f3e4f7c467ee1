-- ===== src/Lib.antt =====
-- The Arkiv storage service: a store of annotated entities that follows a chain, and the query
-- engine over it.
--
-- The chain sends blocks of operations (types/types.go, Types). `processBlock` (store/store.go,
-- Store/Block) applies them in order to a write buffer (store/staging.go, Store/Cache) by the
-- handlers of store/ops.go (Store/Ops). A handler writes three things: the entity (in the cache),
-- the counter and the id slots of the system account (store/system.go, Store/Cache), and one
-- bitmap of entity ids for each annotation pair (store/bitmap.go, Store/Cache). The bitmaps are
-- the index of the queries. A query (query/language.go, Query/Language) is normalised to a
-- disjunction of conjunctions (query/normalize.go, Query/Normalize) and evaluated on bitmaps
-- (query/evaluate.go, Query/Evaluate), which the store looks up or collects by a scan of its keys
-- (store/keys.go, Store/Keys; store/query.go, Store/Glob and Store/PrefixRange).
--
-- Function names are those of the source in snake_case: `processCreate` is process_create,
-- `getEntity` is get_entity, `annotKey` is annot_key, `ASTOr.Evaluate` is evaluate_or. Strings,
-- hashes and addresses are lists of byte values (Bytes). A function that can fail returns a
-- Result: a value, an error, or a panic; errors are passed on without the text that callers add.
-- The write buffer is passed explicitly; where the source has a pointer into the entity cache,
-- the model writes the entity back to the cache. Go maps are association lists (Base/Assoc).
-- Before the block's end `flushEntities` and `flushBitmaps` write both caches out (Store/Flush),
-- and `Commit` writes the trie, the block's records and the head in one batch (Store/Commit).
-- `ProcessBlock`, `RevertBlock`, `RevertBlocks` and `Reorg` (store/store.go, Store/Chain) return
-- the store after them, with the state root or an error; store/revert.go is Store/Revert. Reads of
-- a block's state are in Store/Reading, scans over the sorted iterator in Store/Scan.
--
-- The JSON-RPC methods of query/server.go are in Query/Server: the options (Defaults), the loop
-- of a page (Page), the fields of an entity (EntityView) and the methods themselves (Handler).
-- Query/Serving has the store as their backend. version/version.go is Version, which takes the
-- linker's values and the build's information as arguments.
--
-- Packages outside the repository are parameters. Roaring is `roaring64.Bitmap` as a set of
-- numbers. Platform has the key-value database, the account state, hashing and the conversions to
-- text. Codec is RLP. Roaring/Sample and Platform/Sample are instances of the parameters, and
-- Examples applies the theorems to them.
--
-- Specifications: Store/Ops/Index has the index invariant; Query/Normalize/Meaning, what a query
-- says without a normal form; Query/Evaluate/Contract, what the evaluator asks of a store and
-- what a term means; Store/Glob/Matches, what a pattern matches. Store/Block/Next says
-- what the buffer of the next block reads. The index invariant is about pairs whose names have no
-- NUL: `annotKey` joins name and value with one, and nothing in the store
-- refuses it in a name. Scans for strings pass over empty values, so the contract of the evaluator
-- has one index for lookups and one for these scans.
--
-- Fuel: `globMatch` gets the length of the pattern (each round and each inner call drops a byte
-- of it); `Expression.Normalize` gets one more than the depth of parentheses that it enters,
-- counted on the inverted expression where it inverts (need_or). The theorems say that these are
-- enough. Numbers of 64 bits wrap around where the source adds (`% 2 ^ 64`).
--
-- The outer loop of a page gets one more than the number of ids, and each round takes one.
--
-- Not modelled: the chain's JSON-RPC server, the parser (made by a library from struct tags), RLP,
-- JSON, hexadecimal numbers, the lock of the store, the version handler and the start of the
-- process.
pub mod Base
pub mod Bytes
pub mod Roaring
pub mod Platform
pub mod Types
pub mod Store
pub mod Query
pub mod Version
mod Examples
