-- ===== src/Common/Words.antt =====
-- Machine words as native numbers: arithmetic wraps by `%`, a flag is one binary digit.
use Prim.Native.Nat.{ℕ, ◌+◌, ◌-◌, ◌/◌, ◌%◌, ◌^◌}
use mathlib.Core.Bool.{Bool}
use music_ra_t.Common.Tests.{◌==◌, if◌then◌else◌}

-- uint64_t, uint32_t and size_t sums.
abbrev pub add_u64 : ℕ → ℕ → ℕ
add_u64 a b = (a + b) % 2 ^ 64

abbrev pub sub_u64 : ℕ → ℕ → ℕ
sub_u64 a b = (a + 2 ^ 64 - b % 2 ^ 64) % 2 ^ 64

abbrev pub add_u32 : ℕ → ℕ → ℕ
add_u32 a b = (a + b) % 2 ^ 32

-- `(flags & (1 << k)) != 0`
abbrev pub has_flag : ℕ → ℕ → Bool
has_flag flags k = (flags / 2 ^ k) % 2 == 1

-- `flags | (1 << k)`
abbrev pub set_flag : ℕ → ℕ → ℕ
set_flag flags k = if has_flag flags k then flags else flags + 2 ^ k
