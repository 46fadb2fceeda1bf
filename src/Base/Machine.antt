-- ===== src/Base/Machine.antt =====
-- Arithmetic of the machine's unsigned integers that stops at the type's bound.
use chromifer.Base.{ℕ, ◌+◌, ◌*◌, ◌-◌, min, ◌/◌}

-- `u32::MAX`
abbrev pub max_32 : ℕ
max_32 = 4294967295

-- `u64::MAX`, and `usize::MAX` on the platforms of the tool
abbrev pub max_64 : ℕ
max_64 = 18446744073709551615

-- `saturating_add`, by the type's bound
abbrev pub sat_add : (bound a b : ℕ) → ℕ
sat_add bound a b = min (a + b) bound

-- `saturating_mul`
abbrev pub sat_mul : (bound a b : ℕ) → ℕ
sat_mul bound a b = min (a * b) bound

-- `div_ceil`, for a divisor that is not 0
abbrev pub div_ceil : ℕ → ℕ → ℕ
div_ceil a b = (a + (b - 1)) / b
