-- ===== src/Prelude/Int.antt =====
-- `int`, as a number with a sign: `negsuc n` is -(n + 1).
use Prim.Native.Nat.{ℕ, ◌-◌, ◌^◌}
use mathlib.Core.Bool.{Bool, true, not, ◌||◌}
use pick_up_the_light_server.Prelude.Tests.{ltb, ◌==◌, if◌then◌else◌}

pub data ℤ : Type 0 where
  pos : ℕ → ℤ
  negsuc : ℕ → ℤ

-- `-1`
abbrev pub minus_one : ℤ
minus_one = negsuc 0

-- An `unsigned int` that is passed as an `int`.
abbrev pub to_int : ℕ → ℤ
to_int w = if ltb w (2 ^ 31) then pos w else negsuc (2 ^ 32 - w - 1)

-- `ret == -1 || ret == 0 || ret != size`, the test after each read of `size` bytes. The `int` is
-- compared as an `unsigned int`, which matters only below 0, where the first test has passed.
abbrev pub is_short : ℤ → ℕ → Bool
is_short (negsuc n) size = true
is_short (pos n) size = n == 0 || not (n == size)
