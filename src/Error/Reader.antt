-- ===== src/Error/Reader.antt =====
-- A decoder `fn(buf: &[u8], off: &mut usize) -> Result<T>` as a function of the bytes from `off` on:
-- it returns its value with the bytes that it leaves. The sum `*off + n` cannot wrap, since a buffer
-- is shorter than 2^63 bytes and `n` comes from a u32.
use hench_db.Prelude.{
  ℕ, ◌^◌, ◌<◌, ◌≡◌, refl, false, [], ◌∷◌, ◌++◌, arith, length, take, drop, ltb, if◌then◌else◌,
}
use hench_db.Bytes.{Bytes, le_bytes, from_le}
use hench_db.Bytes.Laws.{length-le_bytes, from_le-le_bytes}
use hench_db.Error.{Result, ok, err, corrupted}

abbrev pub Reader {ℓ} : Type ℓ → Type ℓ
Reader A = Bytes → Result (A × Bytes)

abbrev pub continue {ℓ} : {A B : Type ℓ} → Result (A × Bytes) → (A → Reader B) → Result (B × Bytes)
continue (ok (a, rest)) f = f a rest
continue (err e) f = err e

infixl 5 ◌>>=◌
abbrev pub ◌>>=◌ {ℓ} : {A B : Type ℓ} → Reader A → (A → Reader B) → Reader B
◌>>=◌ m f bs = continue (m bs) f

abbrev pub pure {ℓ} : {A : Type ℓ} → A → Reader A
pure a bs = ok (a, bs)

abbrev pub fail {ℓ} : {A : Type ℓ} → Reader A
fail bs = err corrupted

-- `*buf.get(*off).ok_or_else(..)?; *off += 1;`
abbrev pub take_byte : Reader ℕ
take_byte [] = err corrupted
take_byte (b ∷ bs) = ok (b, bs)

-- `if *off + n > buf.len() { return Err(..) }`, then the next `n` bytes.
unfoldable pub take_n : ℕ → Reader Bytes
take_n n bs = if ltb (length bs) n then err corrupted else ok (take n bs, drop n bs)

-- The next `n` bytes as a little-endian word.
unfoldable pub take_le : ℕ → Reader ℕ
take_le n = do b ← take_n n; pure (from_le b)

pub take_append : (xs ys : Bytes) → take (length xs) (xs ++ ys) ≡ xs
take_append [] ys = refl
take_append (x ∷ xs) ys = rw (take_append xs ys)

pub drop_append : (xs ys : Bytes) → drop (length xs) (xs ++ ys) ≡ ys
drop_append [] ys = refl
drop_append (x ∷ xs) ys = drop_append xs ys

pub no_shorter : (xs ys : Bytes) → ltb (length (xs ++ ys)) (length xs) ≡ false
no_shorter [] ys = ground arith
no_shorter (x ∷ xs) ys = ground (arith, no_shorter xs ys)

pub take_n-append : (xs ys : Bytes) → take_n (length xs) (xs ++ ys) ≡ ok (xs, ys)
unfolding take_n
take_n-append xs ys = rw (no_shorter xs ys, take_append xs ys, drop_append xs ys)

pub take_le-le_bytes :
    (n v : ℕ) (rest : Bytes) → v < 256 ^ n → take_le n (le_bytes n v ++ rest) ≡ ok (v, rest)
unfolding take_le
take_le-le_bytes n v rest h =
    let e : take_n n (le_bytes n v ++ rest) ≡ ok (le_bytes n v, rest) =
      rw length-le_bytes at (take_n-append (le_bytes n v) rest) in
    rw (e, continue) (rw (from_le-le_bytes n v h))
