-- ===== src/Base/Decimals.antt =====
-- Python's finite `Decimal`s: `coefficient / 10 ** places`. Products are exact, as they are in Python
-- up to the 28 digits of the default context.
use Prim.Native.Nat.{ℕ, ◌+◌, ◌*◌, ◌-◌, ◌/◌, ◌%◌, ◌^◌}
use Prim.Native.String.{String}
use mathlib.Core.Bool.{Bool, ◌||◌, ◌&&◌}
use mathlib.Core.List.{[], ◌∷◌}
use ot_soc_fusion_x.Base.Tests.{ltb, leb, ◌==◌, if◌then◌else◌}
use ot_soc_fusion_x.Base.Strings.{concat, str_int, padded}
use ot_soc_fusion_x.Base.Int.{ℤ, lt_int, mul_nat, magnitude, is_negative}

pub record Decimal : Type 0 where
  pub coefficient : ℤ
  pub places : ℕ

-- a < b
unfoldable pub lt_decimal : Decimal → Decimal → Bool
lt_decimal a b =
    lt_int (mul_nat (10 ^ b.places) a.coefficient) (mul_nat (10 ^ a.places) b.coefficient)

-- Decimal(n) * a
abbrev pub mul_decimal : ℕ → Decimal → Decimal
mul_decimal n a = record { coefficient = mul_nat n a.coefficient; places = a.places }

-- n / d to the nearest integer, a tie to the even one
abbrev half_even : ℕ → ℕ → ℕ
half_even n d =
    let q = n / d in
    let r = n % d in if ltb (2 * r) d || (2 * r == d && q % 2 == 0) then q else q + 1

-- The magnitude of `value.quantize(Decimal(1).scaleb(-places))` in units of the last place.
abbrev quantized : ℕ → Decimal → ℕ
quantized places a =
    if leb a.places places
    then magnitude a.coefficient * 10 ^ (places - a.places)
    else half_even (magnitude a.coefficient) (10 ^ (a.places - places))

-- format(value.quantize(Decimal(1).scaleb(-places)), f".{places}f")
unfoldable pub format_decimal : Decimal → ℕ → String
unfolding str_int padded
format_decimal a places =
    let units = quantized places a in
    let sign = if is_negative a.coefficient then "-" else "" in
    if places == 0
    then concat (sign ∷ str_int units ∷ [])
    else concat
        (sign ∷ str_int (units / 10 ^ places) ∷ "." ∷ padded places (units % 10 ^ places) ∷ [])
