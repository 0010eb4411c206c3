-- ===== src/Codec.antt =====
-- crates/engine/src/wal.rs: the building blocks of the binary formats, `put_str`, `put_bytes`,
-- `take_u32`, `take_bytes`, `take_str`, and the shapes of the loops and sections made of them.
-- `le_bytes n` keeps the low `n` bytes, as the cast of a length to u32 does.
pub mod Laws
use hench_db.Prelude.{
  ℕ, zero, suc, Bool, Option, none, some, List, [], ◌∷◌, ◌++◌, length, ltb, not, ◌==◌,
  if◌then◌else◌,
}
use hench_db.Bytes.{Bytes, le_bytes}
use hench_db.Error.Reader.{Reader, ◌>>=◌, pure, fail, take_byte, take_n, take_le}
use hench_db.Error.{ok}
use hench_db.Datum.{from_utf8}

unfoldable pub put_bytes : Bytes → Bytes
put_bytes b = le_bytes 4 (length b) ++ b

unfoldable pub put_str : Bytes → Bytes
put_str s = le_bytes 4 (length s) ++ s

unfoldable pub take_bytes : Reader Bytes
take_bytes = do n ← take_le 4; take_n n

unfoldable pub take_str : Reader Bytes
take_str = do b ← take_bytes; from_utf8 b

-- `*buf.get(*off).ok_or_else(..)? != 0`
unfoldable pub take_flag : Reader Bool
take_flag = do b ← take_byte; pure (not (b == 0))

-- `for x in &xs { .. }`
unfoldable pub put_many {ℓ} : {A : Type ℓ} → (A → Bytes) → List A → Bytes
put_many put [] = []
put_many put (x ∷ xs) = put x ++ put_many put xs

-- `for _ in 0..n { out.push(..) }`
unfoldable pub take_many : {A : Type 0} → ℕ → Reader A → Reader (List A)
take_many zero r = pure []
take_many (suc n) r = do x ← r; xs ← take_many n r; pure (x ∷ xs)

-- `if n > max { return Err(..) }`
unfoldable pub at_most : ℕ → ℕ → Reader ℕ
at_most max n = if ltb max n then fail else pure n

-- A count that is bounded, then so many items.
unfoldable pub take_list : {A : Type 0} → ℕ → Reader A → Reader (List A)
take_list max r = do n ← take_le 4; m ← at_most max n; take_many m r

-- The count of a list, then its items.
unfoldable pub put_list {ℓ} : {A : Type ℓ} → (A → Bytes) → List A → Bytes
put_list put xs = le_bytes 4 (length xs) ++ put_many put xs

-- A byte that says whether a value follows.
unfoldable pub put_option {ℓ} : {A : Type ℓ} → (A → Bytes) → Option A → Bytes
put_option put none = 0 ∷ []
put_option put (some a) = 1 ∷ put a

-- What follows the byte that says whether a value follows.
unfoldable pub when_flag : {A : Type 0} → ℕ → Reader A → Reader (Option A)
when_flag b r = if not (b == 0) then (do a ← r; pure (some a)) else pure none

unfoldable pub take_option : {A : Type 0} → Reader A → Reader (Option A)
take_option r = do b ← take_byte; when_flag b r

-- `if *off < buf.len() { .. }`: a section that older images do not have.
unfoldable pub or_absent : {A : Type 0} → A → Reader A → Reader A
or_absent absent r [] = ok (absent, [])
or_absent absent r (b ∷ bs) = r (b ∷ bs)
