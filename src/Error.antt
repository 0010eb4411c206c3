-- ===== src/Error.antt =====
-- crates/engine/src/error.rs: the error type and `Result<T>`; and a reader, the shape of the
-- decoders that take `(buf: &[u8], off: &mut usize)`.
--
-- An error keeps the names that it carries and not the text of its message.
pub mod Reader
use hench_db.Prelude.{ℕ, ◌≡◌, refl}
use hench_db.Bytes.{Bytes}

pub data Error : Type 0 where
  table_not_found table_exists column_not_found : Bytes → Error
  column_count_mismatch : ℕ → ℕ → Error
  type_mismatch : Bytes → Bytes → Error
  duplicate_key not_null_violation : Bytes → Error
  multiple_primary_keys missing_primary_key parse_error txn_not_active txn_conflict : Error
  io corrupted not_supported : Error
  index_not_found index_exists : Bytes → Error
  foreign_key_violation invalid_schema : Error
  database_not_found database_exists : Bytes → Error
  query_timeout read_only_replica invalid_query execution_error invalid_operation : Error
  access_denied : Bytes → Bytes → Bytes → Error

-- `Result<T>`, whose error type is fixed.
pub data Result {ℓ} (T : Type ℓ) : Type ℓ where
  ok : T → Result T
  err : Error → Result T

-- The operator `?`.
infixl 5 ◌>>=◌
abbrev pub ◌>>=◌ {ℓ κ} : {S : Type ℓ} {T : Type κ} → Result S → (S → Result T) → Result T
err failure >>= next = err failure
ok value >>= next = next value

pub >>=-eq-ok {ℓ κ} :
    {S : Type ℓ} {T : Type κ} (m : Result S) (next : S → Result T) {b : T}
    → (m >>= next) ≡ ok b
    → (a : S) × (m ≡ ok a) × (next a ≡ ok b)
>>=-eq-ok (ok a) next h = (a, refl, h)
>>=-eq-ok (err e) next h = cc
