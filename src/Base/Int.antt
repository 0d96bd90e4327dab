-- ===== src/Base/Int.antt =====
-- Python's integers: `pos n` is n, and `negsuc n` is -(n + 1).
use Prim.Native.Nat.{ℕ, suc, ◌*◌, ◌-◌}
use mathlib.Core.Bool.{Bool, true, false}
use ot_soc_fusion_x.Base.Tests.{ltb, ◌==◌}

pub data ℤ : Type 0 where
  pos : ℕ → ℤ
  negsuc : ℕ → ℤ

-- a < b
abbrev pub lt_int : ℤ → ℤ → Bool
lt_int (pos a) (pos b) = ltb a b
lt_int (pos a) (negsuc b) = false
lt_int (negsuc a) (pos b) = true
lt_int (negsuc a) (negsuc b) = ltb b a

-- a == n, for a natural number n
abbrev pub is_nat : ℤ → ℕ → Bool
is_nat (pos a) n = a == n
is_nat (negsuc a) n = false

-- n * a, for a natural number n
abbrev pub mul_nat : ℕ → ℤ → ℤ
mul_nat n (pos a) = pos (n * a)
mul_nat ℕ.zero (negsuc a) = pos 0
mul_nat (suc n) (negsuc a) = negsuc (suc n * suc a - 1)

-- abs(a)
abbrev pub magnitude : ℤ → ℕ
magnitude (pos a) = a
magnitude (negsuc a) = suc a

abbrev pub is_negative : ℤ → Bool
is_negative (pos a) = false
is_negative (negsuc a) = true
