-- ===== src/Bytes/Laws.antt =====
-- Words go through their bytes unchanged, and big-endian bytes have the order of the words.
use native.Mathlib.Nat.{pow-suc, div-add-mod, mod-lt, one-le-pow}
use hench_db.Prelude.{
  ℕ, zero, suc, ◌+◌, ◌*◌, ◌/◌, ◌%◌, ◌^◌, ◌<◌, ◌≤◌, ◌≡◌, refl, ap, arith, length, ltb, ◌||◌, ◌&&◌,
  ◌==◌,
}
use hench_db.Bytes.{All, IsByte, le_bytes, from_le, be_bytes, from_be, bytes_lt}

pub length-le_bytes : (n v : ℕ) → length (le_bytes n v) ≡ n
unfolding le_bytes
length-le_bytes zero v = refl
length-le_bytes (suc n) v = ap suc (length-le_bytes n (v / 256))

le_bytes-IsByte : (n v : ℕ) → All IsByte (le_bytes n v)
unfolding le_bytes
le_bytes-IsByte zero v = tt
le_bytes-IsByte (suc n) v = (omega arith, le_bytes-IsByte n (v / 256))

pub from_le-le_bytes : (n v : ℕ) → v < 256 ^ n → from_le (le_bytes n v) ≡ v
unfolding le_bytes from_le
from_le-le_bytes zero v h = omega arith
from_le-le_bytes (suc n) v h =
    omega (arith, from_le-le_bytes n (v / 256) (omega (arith, pow-suc 256 n)))

pub length-be_bytes : (n v : ℕ) → length (be_bytes n v) ≡ n
unfolding be_bytes
length-be_bytes zero v = refl
length-be_bytes (suc n) v = ap suc (length-be_bytes n (v % 256 ^ n))

pos_pow : (n : ℕ) → 0 < 256 ^ n
pos_pow n = one-le-pow n 256 (omega arith)

be_bytes-IsByte : (n v : ℕ) → v < 256 ^ n → All IsByte (be_bytes n v)
unfolding be_bytes
be_bytes-IsByte zero v h = tt
be_bytes-IsByte (suc n) v h = (
  grind (arith, pow-suc 256 n, div-add-mod v (256 ^ n)),
  be_bytes-IsByte n (v % 256 ^ n) (mod-lt v (pos_pow n)),
)

regroup : (acc p q r v t : ℕ) → t ≡ p * 256 → p * q + r ≡ v → (acc * 256 + q) * p + r ≡ acc * t + v
regroup acc p q r v t e h = rw e (omega (arith, h))

from_be-be_bytes_acc : (n acc v : ℕ) → v < 256 ^ n → from_be acc (be_bytes n v) ≡ acc * 256 ^ n + v
unfolding be_bytes from_be
from_be-be_bytes_acc zero acc v h = omega arith
from_be-be_bytes_acc (suc n) acc v h = rw (from_be-be_bytes_acc n _ _ (mod-lt v (pos_pow n))) (
    regroup acc (256 ^ n) (v / 256 ^ n) (v % 256 ^ n) v _ (pow-suc 256 n) (div-add-mod v (256 ^ n)))

pub from_be-be_bytes : (n v : ℕ) → v < 256 ^ n → from_be 0 (be_bytes n v) ≡ v
from_be-be_bytes n v h = omega (arith, from_be-be_bytes_acc n 0 v h)

step_up : (p a b : ℕ) → a < b → p * a + p ≤ p * b
step_up p a b h = grind arith

-- The high part decides the order, and the low part where the high parts agree.
split_order :
    (p a b r s : ℕ)
    → r < p
    → s < p
    → (ltb a b || ((a == b) && ltb r s)) ≡ ltb (p * a + r) (p * b + s)
split_order p a b r s h k = ground (arith, step_up p a b, step_up p b a)

ltb_split :
    (p v w : ℕ)
    → 0 < p
    → (ltb (v / p) (w / p) || ((v / p == w / p) && ltb (v % p) (w % p))) ≡ ltb v w
ltb_split p v w h =
    rw (split_order p (v / p) (w / p) (v % p) (w % p) (mod-lt v h) (mod-lt w h))
      (rw (div-add-mod v p, div-add-mod w p))

pub bytes_lt-be_bytes :
    (n v w : ℕ) → v < 256 ^ n → w < 256 ^ n → bytes_lt (be_bytes n v) (be_bytes n w) ≡ ltb v w
unfolding be_bytes bytes_lt
bytes_lt-be_bytes zero v w h k = ground arith
bytes_lt-be_bytes (suc n) v w h k =
    rw (bytes_lt-be_bytes n _ _ (mod-lt v (pos_pow n)) (mod-lt w (pos_pow n)))
      (ltb_split (256 ^ n) v w (pos_pow n))
