-- ===== src/BlockPtr.antt =====
-- `BlockPtr` of massbit/src/blockchain/types.rs and its conversions. A hash is a list of bytes; a hash of
-- web3's `H256` is one of 32 bytes.
use test_ci_for_massbitproto.Prelude.{ℕ, leb, ◌==◌, if◌then◌else◌, List, length}
use test_ci_for_massbitproto.Prelude.Int.{ℤ, pos, negsuc}
use test_ci_for_massbitproto.Prelude.Outcome.{Outcome, done, failed, panic}

pub record BlockPtr : Type 0 where
  pub hash : List ℕ
  pub number : ℤ

-- `i32::MAX`, the `BLOCK_NUMBER_MAX` of massbit/src/components/store.rs
abbrev pub block_number_max : ℕ
block_number_max = 2147483647

-- `From<(H256, i32)>` and `From<(Vec<u8>, i32)>`
unfoldable pub from_i32 : List ℕ → ℤ → BlockPtr
from_i32 hash number = record { hash = hash; number = number }

-- `From<(H256, u64)>`: a number above `i32::MAX` panics.
unfoldable pub from_u64 : List ℕ → ℕ → Outcome BlockPtr
from_u64 hash number =
    if leb number block_number_max then done (from_i32 hash (pos number)) else panic

-- `From<(H256, i64)>`: a negative number panics.
unfoldable pub from_i64 : List ℕ → ℤ → Outcome BlockPtr
from_i64 hash (negsuc n) = panic
from_i64 hash (pos n) = from_u64 hash n

-- `TryFrom<(&[u8], i64)>`
unfoldable pub try_from_bytes : List ℕ → ℤ → Outcome BlockPtr
try_from_bytes bytes number =
    if length bytes == 32
    then from_i64 bytes number
    else failed "invalid H256 value `{}` has {} bytes instead of {}"
