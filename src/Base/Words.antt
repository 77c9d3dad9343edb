-- ===== src/Base/Words.antt =====
-- The checked and saturating operations of Rust's unsigned integers, for a size that is one more than
-- the largest value.
use Prim.Native.Nat.{ℕ, ◌+◌, ◌-◌, ◌*◌, ◌/◌, ◌^◌, ◌≤◌, ◌<◌}
use mathlib.Core.Path.{◌≡◌}
use mathlib.Core.Option.{Option, none, some}
use native.Mathlib.Omega.{arith}
use ascertainty_contracts.Base.Tests.{ltb, leb, ◌==◌, if◌then◌else◌}

-- One more than the largest value of u8, u16, u64 and u128.
abbrev pub u8_size : ℕ
u8_size = 2 ^ 8

abbrev pub u16_size : ℕ
u16_size = 2 ^ 16

abbrev pub u64_size : ℕ
u64_size = 2 ^ 64

abbrev pub u128_size : ℕ
u128_size = 2 ^ 128

unfoldable pub checked_add : ℕ → ℕ → ℕ → Option ℕ
checked_add size a b = if ltb (a + b) size then some (a + b) else none

unfoldable pub checked_sub : ℕ → ℕ → Option ℕ
checked_sub a b = if leb b a then some (a - b) else none

unfoldable pub checked_mul : ℕ → ℕ → ℕ → Option ℕ
checked_mul size a b = if ltb (a * b) size then some (a * b) else none

unfoldable pub checked_div : ℕ → ℕ → Option ℕ
checked_div a b = if b == 0 then none else some (a / b)

-- `u64::try_from` and its like.
unfoldable pub try_from : ℕ → ℕ → Option ℕ
try_from size a = if ltb a size then some a else none

unfoldable pub saturating_add : ℕ → ℕ → ℕ → ℕ
saturating_add size a b = if ltb (a + b) size then a + b else size - 1

pub saturating_add_grows : (size a b : ℕ) → a < size → a ≤ saturating_add size a b
unfolding saturating_add
saturating_add_grows size a b h = ground arith

pub checked_add-eq-some :
    (size a b c : ℕ) → checked_add size a b ≡ some c → (c ≡ a + b) × (c < size)
unfolding checked_add
checked_add-eq-some size a b c h = ground arith

pub checked_sub-eq-some : (a b c : ℕ) → checked_sub a b ≡ some c → (c ≡ a - b) × (b ≤ a)
unfolding checked_sub
checked_sub-eq-some a b c h = ground arith

pub checked_mul-eq-some :
    (size a b c : ℕ) → checked_mul size a b ≡ some c → (c ≡ a * b) × (c < size)
unfolding checked_mul
checked_mul-eq-some size a b c h = ground arith

pub checked_div-eq-some : (a b c : ℕ) → checked_div a b ≡ some c → (c ≡ a / b) × (0 < b)
unfolding checked_div
checked_div-eq-some a b c h = ground arith

pub try_from-eq-some : (size a c : ℕ) → try_from size a ≡ some c → (c ≡ a) × (a < size)
unfolding try_from
try_from-eq-some size a c h = ground arith

-- In the other direction: in range nothing is lost.
pub checked_add_fits : (size a b : ℕ) → a + b < size → checked_add size a b ≡ some (a + b)
unfolding checked_add
checked_add_fits size a b h = ground arith

pub checked_sub_fits : (a b : ℕ) → b ≤ a → checked_sub a b ≡ some (a - b)
unfolding checked_sub
checked_sub_fits a b h = ground arith

pub checked_mul_fits : (size a b : ℕ) → a * b < size → checked_mul size a b ≡ some (a * b)
unfolding checked_mul
checked_mul_fits size a b h = ground arith

pub checked_div_fits : (a b : ℕ) → 0 < b → checked_div a b ≡ some (a / b)
unfolding checked_div
checked_div_fits a b h = ground arith

pub try_from_fits : (size a : ℕ) → a < size → try_from size a ≡ some a
unfolding try_from
try_from_fits size a h = ground arith

pub u64_positive : 0 < u64_size
u64_positive = omega arith
