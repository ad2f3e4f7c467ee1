-- ===== src/Bytes/BigEndian.antt =====
-- Big-endian numbers, at every width: `binary.BigEndian` of the standard library writes and reads
-- eight bytes.
pub mod Laws
pub mod Digits
use arkiv_storage_service.Base.{
  ℕ, zero, suc, ◌+◌, ◌*◌, ◌/◌, ◌%◌, ◌^◌, [], ◌∷◌, foldl, length, take, leb, if◌then◌else◌, Result,
  ok, fail, panic,
}
use arkiv_storage_service.Bytes.{Bytes}

unfoldable pub big_endian : ℕ → ℕ → Bytes
big_endian zero v = []
big_endian (suc width) v = (v / 256 ^ width % 256) ∷ big_endian width v

-- the number that a byte string stands for, after `acc`
unfoldable pub value_from : ℕ → Bytes → ℕ
value_from acc [] = acc
value_from acc (b ∷ bs) = value_from (acc * 256 + b) bs

-- `PutUint64` into a fresh array
unfoldable pub put_uint64 : ℕ → Bytes
unfolding big_endian
put_uint64 v = big_endian 8 v

-- `Uint64` reads the first eight bytes, and panics if there are fewer.
unfoldable pub uint64 : Bytes → Result ℕ
unfolding value_from
uint64 b =
    if leb 8 (length b) then ok (value_from 0 (take 8 b)) else fail (panic "index out of range")

abbrev pub max_uint64 : ℕ
max_uint64 = 18446744073709551615
