-- ===== src/Domain/Duration.antt =====
-- `time.Duration`: an int64 of nanoseconds, held as its bit pattern below 2 ^ 64.
use odyssey_core_agent.Prelude.{
  zero, suc, ℤ, pos, negsuc, ℕ, ◌+◌, ◌-◌, ◌/◌, ◌%◌, ◌^◌, ltb, if◌then◌else◌,
}

abbrev pub Duration : Type 0
Duration = ℕ

-- `a + b` wraps around.
unfoldable pub add64 : Duration → Duration → Duration
add64 a b = (a + b) % 2 ^ 64

-- -n
abbrev pub neg : ℕ → ℤ
neg zero = pos 0
neg (suc n) = negsuc n

-- `d.Milliseconds()`: a signed division that truncates towards zero.
unfoldable pub milliseconds : Duration → ℤ
milliseconds d = if ltb d (2 ^ 63) then pos (d / 1000000) else neg ((2 ^ 64 - d) / 1000000)
