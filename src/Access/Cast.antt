-- ===== src/Access/Cast.antt =====
-- The conversions between the C types of runtime/include/types.def and `uint64_t`.
use memoir_cs397_atc.Prelude.{
  ℕ, ◌+◌, ◌-◌, ◌%◌, ◌^◌, ◌<◌, ◌≡◌, Bool, true, false, if◌then◌else◌, leb, ◌==◌, ◌&&◌, arith,
}

-- The integer types of types.def: the bits of the C type, whether it is signed, and `bool`.
pub data IntegerKind : Type 0 where
  u64 u32 u16 u8 u2 i64 i32 i16 i8 i2 boolean : IntegerKind

-- The bits of the C type: `u2` and `i2` are bytes, and a `bool` is 0 or 1.
unfoldable pub bits : IntegerKind → ℕ
bits u64 = 64
bits u32 = 32
bits u16 = 16
bits u8 = 8
bits u2 = 8
bits i64 = 64
bits i32 = 32
bits i16 = 16
bits i8 = 8
bits i2 = 8
bits boolean = 1

unfoldable pub is_signed : IntegerKind → Bool
is_signed i64 = true
is_signed i32 = true
is_signed i16 = true
is_signed i8 = true
is_signed i2 = true
is_signed k = false

-- BITWIDTH and IS_SIGNED, the arguments of `IntegerType::get`.
unfoldable pub bitwidth : IntegerKind → ℕ
unfolding bits
bitwidth u2 = 2
bitwidth i2 = 2
bitwidth k = bits k

-- `(uint64_t)value`, of the bits of a C type: a signed one is extended by its sign.
unfoldable pub to_u64 : IntegerKind → ℕ → ℕ
unfolding bits is_signed
to_u64 k v = if is_signed k && leb (2 ^ (bits k - 1)) v then v + (2 ^ 64 - 2 ^ bits k) else v

-- `(C_TYPE)element`: the low bits, or for `bool` whether it is not 0.
unfoldable pub from_u64 : IntegerKind → ℕ → ℕ
unfolding bits
from_u64 boolean e = if e == 0 then 0 else 1
from_u64 k e = e % 2 ^ bits k

-- A value of any integer type survives the way to `uint64_t` and back.
pub from_u64-to_u64 : (k : IntegerKind) (v : ℕ) → v < 2 ^ bits k → from_u64 k (to_u64 k v) ≡ v
unfolding to_u64 from_u64
from_u64-to_u64 u64 v h = ground arith
from_u64-to_u64 u32 v h = ground arith
from_u64-to_u64 u16 v h = ground arith
from_u64-to_u64 u8 v h = ground arith
from_u64-to_u64 u2 v h = ground arith
from_u64-to_u64 i64 v h = ground arith
from_u64-to_u64 i32 v h = ground arith
from_u64-to_u64 i16 v h = ground arith
from_u64-to_u64 i8 v h = ground arith
from_u64-to_u64 i2 v h = ground arith
from_u64-to_u64 boolean v h = ground arith
