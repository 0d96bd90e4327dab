-- ===== src/Base/Strings.antt =====
-- Texts: identifiers and messages are `String`; a text that the program inspects character by
-- character is the list of its code points.
use Prim.Native.Char.{code}
use Prim.Native.String.{String, ◌++◌}
use mathlib.Core.List.{List, [], ◌∷◌}
use Prim.Native.Nat.{ℕ, zero, suc, ◌/◌, ◌%◌}
use ot_soc_fusion_x.Base.Tests.{ltb, if◌then◌else◌}

abbrev pub Text : Type 0
Text = List ℕ

-- The code points of a text.
abbrev pub codes : String → Text
codes String.[] = []
codes (String.◌∷◌ c s) = code c ∷ codes s

-- "".join(parts), and an f-string by its parts
abbrev pub concat : List String → String
concat [] = ""
concat (s ∷ []) = s
concat (s ∷ t ∷ rest) = s ++ concat (t ∷ rest)

-- sep.join(parts)
abbrev pub join : String → List String → String
join sep [] = ""
join sep (s ∷ []) = s
join sep (s ∷ t ∷ rest) = s ++ (sep ++ join sep (t ∷ rest))

abbrev digit : ℕ → String
digit zero = "0"
digit (suc zero) = "1"
digit (suc (suc zero)) = "2"
digit (suc (suc (suc zero))) = "3"
digit (suc (suc (suc (suc zero)))) = "4"
digit (suc (suc (suc (suc (suc zero))))) = "5"
digit (suc (suc (suc (suc (suc (suc zero)))))) = "6"
digit (suc (suc (suc (suc (suc (suc (suc zero))))))) = "7"
digit (suc (suc (suc (suc (suc (suc (suc (suc zero)))))))) = "8"
digit _ = "9"

-- A number has at most as many digits as its value and one more.
decimal : ℕ → ℕ → String
decimal zero n = digit n
decimal (suc fuel) n =
    let rest = decimal fuel (n / 10) in if ltb n 10 then digit n else rest ++ digit (n % 10)

-- str(n) of a natural number
unfoldable pub str_int : ℕ → String
unfolding decimal
str_int n = decimal n n

-- The last digits of n, as many as the width says.
unfoldable pub padded : ℕ → ℕ → String
padded zero n = ""
padded (suc width) n = padded width (n / 10) ++ digit (n % 10)
