-- ===== src/Bits.antt =====
-- The bit operations of the source at variables: a mask or a flip of the top bit of a word, and the
-- range of an exclusive or.
use Prim.Native.Nat.{
  min, differ, digits, bitwise, bit_and, bit_xor, bit_and-bitwise, bit_xor-bitwise,
}
use native.Mathlib.Nat.{le_refl, pow-suc}
use hench_db.Prelude.{
  ℕ, zero, suc, ◌+◌, ◌-◌, ◌*◌, ◌/◌, ◌%◌, ◌^◌, ◌≤◌, ◌<◌, ◌≡◌, refl, arith, ltb, if◌then◌else◌,
}

-- The native operations stand for a digit recursion on fuel; more fuel changes nothing.
module _ (last : ℕ → ℕ) (digit : ℕ → ℕ → ℕ) where
  enough_fuel : (x y k l : ℕ) → x ≤ k → x ≤ l → digits last digit k x y ≡ digits last digit l x y
  enough_fuel (suc x) y (suc k) (suc l) p q =
      let halved = enough_fuel (suc x / 2) (y / 2) k l (omega arith) (omega arith) in rw halved
  enough_fuel (suc x) y zero l p q = absurd (omega arith)
  enough_fuel (suc x) y (suc k) zero p q = absurd (omega arith)
  enough_fuel zero y zero zero p q = refl
  enough_fuel zero y zero (suc l) p q = refl
  enough_fuel zero y (suc k) zero p q = refl
  enough_fuel zero y (suc k) (suc l) p q = refl

  lowest_digit :
      (x y : ℕ)
      → bitwise last digit (suc x) y
        ≡ digit (suc x % 2) (y % 2) + bitwise last digit (suc x / 2) (y / 2) * 2
  lowest_digit x y =
      let halved = enough_fuel (suc x / 2) (y / 2) x (suc x / 2) (omega arith) (le_refl _) in
      omega (arith, halved)

xor_halves : (x y : ℕ) → bit_xor x y ≡ differ (x % 2) (y % 2) + bit_xor (x / 2) (y / 2) * 2
xor_halves (suc x) y =
    let lowest = lowest_digit (λ n. n) differ x y in simp bit_xor-bitwise (omega (arith, lowest))
xor_halves zero y = simp bit_xor-bitwise (omega arith)

and_halves : (x y : ℕ) → bit_and x y ≡ min (x % 2) (y % 2) + bit_and (x / 2) (y / 2) * 2
and_halves (suc x) y =
    let lowest = lowest_digit (λ n. 0) min x y in simp bit_and-bitwise (omega (arith, lowest))
and_halves zero y = simp bit_and-bitwise (omega arith)

differ_bit : (a b : ℕ) → a < 2 → b < 2 → differ a b ≤ 1
differ_bit zero b h k = omega arith
differ_bit (suc zero) zero h k = omega arith
differ_bit (suc zero) (suc b) h k = omega arith
differ_bit (suc (suc a)) b h k = absurd (omega arith)

differ-zero : (a : ℕ) → differ a 0 ≡ a
differ-zero zero = refl
differ-zero (suc a) = refl

-- `x ^ (1 << k)` on a word of k + 1 bits.
pub bit_xor_top :
    (k x : ℕ) → x < 2 ^ suc k → bit_xor x (2 ^ k) ≡ (if ltb x (2 ^ k) then x + 2 ^ k else x - 2 ^ k)
bit_xor_top zero zero h = refl
bit_xor_top zero (suc zero) h = refl
bit_xor_top zero (suc (suc x)) h = absurd (omega arith)
bit_xor_top (suc k) x h = ground (
  arith,
  xor_halves x (2 ^ suc k),
  pow-suc 2 k,
  pow-suc 2 (suc k),
  differ-zero (x % 2),
  bit_xor_top k (x / 2),
)

-- `x & (1 << k)` on a word of k + 1 bits.
pub bit_and_top :
    (k x : ℕ) → x < 2 ^ suc k → bit_and x (2 ^ k) ≡ (if ltb x (2 ^ k) then 0 else 2 ^ k)
bit_and_top zero zero h = refl
bit_and_top zero (suc zero) h = refl
bit_and_top zero (suc (suc x)) h = absurd (omega arith)
bit_and_top (suc k) x h =
    ground (arith, and_halves x (2 ^ suc k), pow-suc 2 k, pow-suc 2 (suc k), bit_and_top k (x / 2))

pub bit_xor_lt : (k a b : ℕ) → a < 2 ^ k → b < 2 ^ k → bit_xor a b < 2 ^ k
bit_xor_lt zero zero zero h p = omega arith
bit_xor_lt zero zero (suc b) h p = absurd (omega arith)
bit_xor_lt zero (suc a) b h p = absurd (omega arith)
bit_xor_lt (suc k) a b h p = omega (
  arith,
  xor_halves a b,
  pow-suc 2 k,
  differ_bit (a % 2) (b % 2) (omega arith) (omega arith),
  bit_xor_lt k (a / 2) (b / 2) (omega (arith, pow-suc 2 k)) (omega (arith, pow-suc 2 k)),
)
