-- ===== src/Bytes.antt =====
-- Go's strings and byte slices: lists of byte values. A text constant of the source is `codes "…"`,
-- whose code points are its bytes where the text is ASCII.
pub mod Order
pub mod BigEndian
use Prim.Native.Char.{code}
use arkiv_storage_service.Base.{
  ◌<◌, ℕ, ◌≡◌, refl, ◌↔◌, Bool, true, false, ◌&&◌, String, List, [], ◌∷◌, ◌++◌, map, arith, ◌==◌,
  ltb, if◌then◌else◌,
}

abbrev pub Bytes : Type 0
Bytes = List ℕ

abbrev pub codes : String → Bytes
codes String.[] = []
codes (String.◌∷◌ c s) = code c ∷ codes s

-- `a == b` on strings
unfoldable pub beq : Bytes → Bytes → Bool
beq [] [] = true
beq [] (b ∷ bs) = false
beq (a ∷ as') [] = false
beq (a ∷ as') (b ∷ bs) = a == b && beq as' bs

-- `a < b` on strings: byte by byte, a proper prefix first
unfoldable pub lt : Bytes → Bytes → Bool
lt [] [] = false
lt [] (b ∷ bs) = true
lt (a ∷ as') [] = false
lt (a ∷ as') (b ∷ bs) = let rest = lt as' bs in if a == b then rest else ltb a b

-- `strings.HasPrefix(s, p)`, with the prefix first
unfoldable pub has_prefix : Bytes → Bytes → Bool
has_prefix [] s = true
has_prefix (a ∷ p) [] = false
has_prefix (a ∷ p) (b ∷ s) = a == b && has_prefix p s

-- every element is a byte
abbrev pub AreBytes : Bytes → Type 0
AreBytes [] = Unit
AreBytes (c ∷ s) = (c < 256) × AreBytes s
