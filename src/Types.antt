-- ===== src/Types.antt =====
-- src/error.rs and the types of src/lib.rs. The text of an error message decides nothing in the
-- program and is left out; of an I/O error the kind is kept, since `read_record` looks at it.
pub mod Keys
pub mod Bytes
pub mod Entries
pub mod Tables
use cityhall.Base.{
  ℕ, zero, suc, ◌==◌, if◌then◌else◌, ◌≡◌, refl, ◌⊎◌, List, [], ◌∷◌, Option, none, some,
}

pub data ErrorKind : Type 0 where
  unexpected_eof not_found other : ErrorKind

pub data StorageError : Type 0 where
  io : ErrorKind → StorageError
  corruption corrupted_data invalid_format : StorageError
  resource_not_found key_not_found : StorageError
  channel_send system_time : StorageError
  connection_failed connection_closed timeout leader_error unexpected_response : StorageError
  sync_failed : StorageError

-- `Result` of src/error.rs; `panic` is the unwinding of the thread, which no caller here catches.
pub data Result {ℓ} (A : Type ℓ) : Type ℓ where
  panic : Result A
  ok : A → Result A
  err : StorageError → Result A

infixl 5 ◌>>=◌ ◌>>◌
-- The `?` operator.
abbrev pub ◌>>=◌ {ℓ₁ ℓ₂} : {T : Type ℓ₁} {U : Type ℓ₂} → Result T → (T → Result U) → Result U
panic >>= next = panic
err x >>= next = err x
ok value >>= next = next value

abbrev pub ◌>>◌ {ℓ₁ ℓ₂} : {T : Type ℓ₁} {U : Type ℓ₂} → Result T → Result U → Result U
first >> second = first >>= λ _. second

module _ {ℓ₁ ℓ₂} {T : Type ℓ₁} {U : Type ℓ₂} where
  -- Inversion of a successful chain.
  pub >>=-eq-ok :
      (first : Result T) (next : T → Result U) {u : U}
      → (first >>= next) ≡ ok u
      → (t : T) × (first ≡ ok t) × (next t ≡ ok u)
  >>=-eq-ok panic next whole = cc
  >>=-eq-ok (err x) next whole = cc
  >>=-eq-ok (ok value) next whole = (value, refl, whole)

pub ok_injective {ℓ} : {T : Type ℓ} (a b : T) → ok a ≡ ok b → a ≡ b
ok_injective a b h = cc

-- Entry of src/lib.rs; a byte string is a list of numbers below 256.
pub record Entry : Type 0 where
  pub key : List ℕ
  pub value : List ℕ
  pub timestamp : ℕ

pub data OpType : Type 0 where
  put delete : OpType

-- `op_type as u8`, by the `repr(u8)` discriminants.
unfoldable pub as_u8 : OpType → ℕ
as_u8 put = 1
as_u8 delete = 2

unfoldable pub from_u8 : ℕ → Option OpType
from_u8 value = if value == 1 then some put else if value == 2 then some delete else none

pub from_u8-as_u8 : (op : OpType) → from_u8 (as_u8 op) ≡ some op
unfolding from_u8 as_u8
from_u8-as_u8 put = refl
from_u8-as_u8 delete = refl
