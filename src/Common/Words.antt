-- ===== src/Common/Words.antt =====
-- Unsigned 32-bit arithmetic, as `millis()` timestamps and the traffic counters use it.
use Prim.Native.Nat.{ℕ, ◌+◌, ◌-◌, ◌%◌, ◌≤◌, ◌<◌}
use mathlib.Core.Path.{◌≡◌}
use mathlib.Core.Bool.{Bool, true, false}
use native.Mathlib.Omega.{arith}
use marsrelay.Common.Tests.{leb}

abbrev pub u32_mod : ℕ
u32_mod = 4294967296

-- `a + b` and `a - b` on uint32_t.
unfoldable pub add32 : ℕ → ℕ → ℕ
add32 a b = (a + b) % u32_mod

unfoldable pub sub32 : ℕ → ℕ → ℕ
sub32 a b = (a + u32_mod - b) % u32_mod

-- `(int32_t) (a - b) < 0`: the sign bit of the difference.
unfoldable pub before32 : ℕ → ℕ → Bool
unfolding sub32
before32 a b = leb 2147483648 (sub32 a b)

pub add32-lt : (a b : ℕ) → add32 a b < u32_mod
unfolding add32
add32-lt a b = omega arith

pub sub32-lt : (a b : ℕ) → sub32 a b < u32_mod
unfolding sub32
sub32-lt a b = omega arith

-- The difference of two readings is the time between them, across a wrap of the clock as well.
pub sub32-add32 : (t d : ℕ) → t < u32_mod → d < u32_mod → sub32 (add32 t d) t ≡ d
unfolding sub32 add32
sub32-add32 t d ht hd = omega arith

-- A moment less than 2^31 ms ahead of `t` is not yet due at `t`, and one behind it is.
pub before32_ahead : (t d e : ℕ) → d < e → e < 2147483648 → before32 (add32 t d) (add32 t e) ≡ true
unfolding before32 add32
before32_ahead t d e h k = ground arith

pub before32_due :
    (t d e : ℕ) → e ≤ d → d < e + 2147483648 → before32 (add32 t d) (add32 t e) ≡ false
unfolding before32 add32
before32_due t d e h k = ground arith
