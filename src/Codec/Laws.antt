-- ===== src/Codec/Laws.antt =====
-- What the building blocks write, they read back.
use mathlib.Core.List.{append_assoc}
use hench_db.Prelude.{
  ℕ, ◌<◌, ◌≤◌, ◌^◌, ◌≡◌, refl, Option, none, some, List, [], ◌∷◌, ◌++◌, length, ltb, false, arith,
  if◌then◌else◌,
}
use hench_db.Bytes.{Bytes, le_bytes}
use hench_db.Utf8.{IsText}
use hench_db.Error.{ok}
use hench_db.Error.Reader.{Reader, continue, take_n-append, take_le-le_bytes}
use hench_db.Datum.{from_utf8}
use hench_db.Codec.{
  put_bytes, put_str, take_bytes, take_str, put_many, take_many, at_most, take_list, put_list,
  put_option, when_flag, take_option,
}

-- The reader takes off what `put` wrote of a value, and leaves what follows.
abbrev pub Reads : {A : Type 0} → Reader A → Bytes → A → Type 0
Reads r bs a = (rest : Bytes) → r (bs ++ rest) ≡ ok (a, rest)

abbrev pub IsStr : Bytes → Type 0
IsStr s = IsText s × (length s < 2 ^ 32)

abbrev pub AllOf {ℓ κ} : {A : Type ℓ} → (A → Type κ) → List A → Type κ
AllOf P [] = Unit
AllOf P (x ∷ xs) = P x × AllOf P xs

abbrev pub OnSome {ℓ κ} : {A : Type ℓ} → (A → Type κ) → Option A → Type κ
OnSome P none = Unit
OnSome P (some a) = P a

pub take_bytes-put_bytes : (b : Bytes) → length b < 2 ^ 32 → Reads take_bytes (put_bytes b) b
unfolding take_bytes put_bytes
take_bytes-put_bytes b short rest =
    rw (append_assoc (le_bytes 4 (length b)) b rest)
      (rw (take_le-le_bytes 4 (length b) (b ++ rest) short, continue) (take_n-append b rest))

pub take_str-put_str : (s : Bytes) → IsStr s → Reads take_str (put_str s) s
unfolding take_str put_str from_utf8 take_bytes
take_str-put_str s (utf8, short) rest = rw (append_assoc (le_bytes 4 (length s)) s rest) (
    rw (take_le-le_bytes 4 (length s) (s ++ rest) short, continue)
      (rw (take_n-append s rest, continue) (rw (utf8, if◌then◌else◌))))

module _ {A : Type 0} (r : Reader A) (put : A → Bytes) (P : A → Type 0)
    (reads : (a : A) → P a → Reads r (put a) a) where
  pub take_many-put_many :
      (xs : List A) → AllOf P xs → Reads (take_many (length xs) r) (put_many put xs) xs
  unfolding take_many put_many
  take_many-put_many [] h rest = refl
  take_many-put_many (x ∷ xs) (p, h) rest = rw (append_assoc (put x) (put_many put xs) rest) (
      rw (reads x p (put_many put xs ++ rest), continue)
        (rw (take_many-put_many xs h rest, continue)))

  pub take_list-put_list :
      (max : ℕ) (xs : List A)
      → length xs ≤ max
      → max < 2 ^ 32
      → AllOf P xs
      → Reads (take_list max r) (put_list put xs) xs
  unfolding take_list put_list at_most
  take_list-put_list max xs few small h rest =
      let within : ltb max (length xs) ≡ false = ground arith in
      rw (append_assoc (le_bytes 4 (length xs)) (put_many put xs) rest) (
        rw (take_le-le_bytes 4 (length xs) (put_many put xs ++ rest) (omega arith), continue)
          (rw (within, if◌then◌else◌) (take_many-put_many xs h rest)))

  pub take_option-put_option :
      (o : Option A) → OnSome P o → Reads (take_option r) (put_option put o) o
  unfolding take_option put_option when_flag
  take_option-put_option none h rest = refl
  take_option-put_option (some a) h rest = rw (reads a h rest, continue)
