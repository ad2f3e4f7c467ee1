-- ===== src/Store/Entity/Attributes.antt =====
-- The number of a `uint` attribute.
use arkiv_storage_service.Base.{
  ℕ, zero, suc, ◌+◌, ◌-◌, ◌*◌, ◌%◌, ◌^◌, ◌<◌, ◌≡◌, refl, sym, ap, ◌∙◌, [], ◌∷◌, ◌++◌, length, take,
  drop, take-append-drop, length-drop, ltb, Bool-cases, inl, inr, arith,
}
use arkiv_storage_service.Bytes.{Bytes, AreBytes}
use arkiv_storage_service.Bytes.BigEndian.{value_from}
use arkiv_storage_service.Bytes.BigEndian.Digits.{value_from-weight}
use arkiv_storage_service.Store.Entity.{shift_in, attr_uint64}

-- One round, for the number of the bytes so far.
round : (w b : ℕ) → b < 256 → w % 2 ^ 64 * 256 % 2 ^ 64 + b ≡ (w * 256 + b) % 2 ^ 64
round w b h = omega arith

shift_in-value_from :
    (w : ℕ) (bs : Bytes) → AreBytes bs → shift_in (w % 2 ^ 64) bs ≡ value_from w bs % 2 ^ 64
unfolding shift_in value_from
shift_in-value_from w [] h = refl
shift_in-value_from w (b ∷ bs) h =
    ap (λ v. shift_in v bs) (round w b h.0) ∙ shift_in-value_from (w * 256 + b) bs h.1

value_from-append : (w : ℕ) (a c : Bytes) → value_from w (a ++ c) ≡ value_from (value_from w a) c
unfolding value_from
value_from-append w [] c = refl
value_from-append w (b ∷ a) c = value_from-append (w * 256 + b) a c

-- Eight bytes put nothing of what stands before them into the lower 64 bits.
last_eight : (w : ℕ) (c : Bytes) → length c ≡ 8 → value_from w c % 2 ^ 64 ≡ value_from 0 c % 2 ^ 64
unfolding value_from
last_eight w c h = rw (value_from-weight w c, h) (omega arith)

AreBytes-drop : (n : ℕ) (s : Bytes) → AreBytes s → AreBytes (drop n s)
AreBytes-drop zero s h = h
AreBytes-drop (suc n) [] h = tt
AreBytes-drop (suc n) (c ∷ s) h = AreBytes-drop n s h.1

-- Of a byte string of any length, `attrUint64` returns the big-endian number that it stands for,
-- modulo 2 ^ 64.
pub attr_uint64-mod : (b : Bytes) → AreBytes b → attr_uint64 b ≡ value_from 0 b % 2 ^ 64
unfolding attr_uint64
attr_uint64-mod b h = elim (Bool-cases (ltb 8 (length b))) [
  | inl long ↦
      let n = length b - 8 in
      let eight : length (drop n b) ≡ 8 = length-drop n b ∙ ground (arith, long) in
      rw long (
        shift_in-value_from 0 (drop n b) (AreBytes-drop n b h)
        ∙ (sym (last_eight (value_from 0 (take n b)) (drop n b) eight)
            ∙ ap (λ x. x % 2 ^ 64)
                (sym (value_from-append 0 (take n b) (drop n b))
                  ∙ ap (value_from 0) (take-append-drop n b))))
  | inr short ↦ rw short (shift_in-value_from 0 b h)
]
