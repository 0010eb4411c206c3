-- ===== src/Bytes.antt =====
-- Byte strings: a `Vec<u8>` or `&[u8]` is a list of numbers below 256, and an unsigned word is a
-- number. `to_le_bytes`, `to_be_bytes`, their inverses and the order of `memcmp`.
pub mod Laws
pub mod Order
use hench_db.Prelude.{
  ℕ, zero, suc, ◌+◌, ◌*◌, ◌/◌, ◌%◌, ◌^◌, ◌<◌, Bool, true, false, ◌||◌, ◌&&◌, List, [], ◌∷◌, ltb,
  ◌==◌,
}

abbrev pub Bytes : Type 0
Bytes = List ℕ

abbrev pub All : (ℕ → Type 0) → Bytes → Type 0
All P [] = Unit
All P (b ∷ bs) = P b × All P bs

abbrev pub IsByte : ℕ → Type 0
IsByte b = b < 256

-- The `n` bytes of `v`, lowest first; `v` is below 256 ^ n.
unfoldable pub le_bytes : ℕ → ℕ → Bytes
le_bytes zero v = []
le_bytes (suc n) v = (v % 256) ∷ le_bytes n (v / 256)

unfoldable pub from_le : Bytes → ℕ
from_le [] = 0
from_le (b ∷ bs) = b + 256 * from_le bs

-- The `n` bytes of `v`, highest first; `v` is below 256 ^ n.
unfoldable pub be_bytes : ℕ → ℕ → Bytes
be_bytes zero v = []
be_bytes (suc n) v = (v / 256 ^ n) ∷ be_bytes n (v % 256 ^ n)

unfoldable pub from_be : ℕ → Bytes → ℕ
from_be acc [] = acc
from_be acc (b ∷ bs) = from_be (acc * 256 + b) bs

-- The order of byte strings: the first difference decides, and a proper prefix is smaller.
unfoldable pub bytes_lt : Bytes → Bytes → Bool
bytes_lt [] [] = false
bytes_lt [] (c ∷ cs) = true
bytes_lt (b ∷ bs) [] = false
bytes_lt (b ∷ bs) (c ∷ cs) = ltb b c || (b == c && bytes_lt bs cs)

-- The test `==` on byte strings.
unfoldable pub bytes_eq : Bytes → Bytes → Bool
bytes_eq [] [] = true
bytes_eq (a ∷ xs) (b ∷ ys) = (a == b) && bytes_eq xs ys
bytes_eq _ _ = false
