-- ===== src/Base/Unicode.antt =====
-- What Python's `str` does by character classes.
use Prim.Native.Nat.{ℕ, ◌+◌}
use Prim.Native.Char.{Char, code}
use Prim.Native.String.{String}
use mathlib.Core.Path.{◌≡◌, refl}
use mathlib.Core.Bool.{Bool, true, false, ◌&&◌, ◌||◌}
use mathlib.Core.List.{List, [], ◌∷◌}
use native.Mathlib.Omega.{arith}
use ot_soc_fusion_x.Base.Tests.{ltb, leb, ◌==◌, if◌then◌else◌}
use ot_soc_fusion_x.Base.Strings.{Text}

-- The characters that `str.strip` and `str.split` take for white space.
unfoldable pub is_space : ℕ → Bool
is_space c =
    (leb 9 c && leb c 13)
    || (leb 28 c && leb c 32)
    || c == 133
    || c == 160
    || c == 5760
    || (leb 8192 c && leb c 8202)
    || c == 8232
    || c == 8233
    || c == 8239
    || c == 8287
    || c == 12288

-- unicodedata.category(char) == "Cc": the control characters of category Cc
unfoldable pub is_control : ℕ → Bool
is_control c = ltb c 32 || (leb 127 c && leb c 159)

-- A word before the later ones, unless it is empty.
abbrev closed : String × List String → List String
closed (String.[], words) = words
closed (String.◌∷◌ c word, words) = String.◌∷◌ c word ∷ words

-- The characters before the first white space, and the words after it.
split_word : String → String × List String
unfolding is_space
split_word String.[] = (String.[], [])
split_word (String.◌∷◌ c rest) =
    let later = split_word rest in
    if is_space (code c) then (String.[], closed later) else (String.◌∷◌ c later.0, later.1)

-- value.split()
unfoldable pub split : String → List String
unfolding split_word
split value = closed (split_word value)

strip_left : String → String
unfolding is_space
strip_left String.[] = String.[]
strip_left (String.◌∷◌ c rest) = if is_space (code c) then strip_left rest else String.◌∷◌ c rest

-- The later characters have lost their white space at the end.
abbrev strip_last : Char → String → String
strip_last c String.[] = if is_space (code c) then String.[] else String.◌∷◌ c String.[]
strip_last c (String.◌∷◌ d more) = String.◌∷◌ c (String.◌∷◌ d more)

strip_right : String → String
unfolding is_space
strip_right String.[] = String.[]
strip_right (String.◌∷◌ c rest) = strip_last c (strip_right rest)

-- value.strip()
unfoldable pub strip : String → String
unfolding strip_left strip_right
strip value = strip_right (strip_left value)

-- s == t
abbrev pub same_text : Text → Text → Bool
same_text [] [] = true
same_text (c ∷ s) (d ∷ t) = c == d && same_text s t
same_text _ _ = false

pub same_text-eq : (s t : Text) → same_text s t ≡ true → s ≡ t
same_text-eq [] [] h = refl
same_text-eq [] (d ∷ t) h = cc
same_text-eq (c ∷ s) [] h = cc
same_text-eq (c ∷ s) (d ∷ t) h =
    let first : c ≡ d = ground arith in
    let rest : s ≡ t = same_text-eq s t (ground arith) in cc (first, rest)

pub same_text_self : (s : Text) → same_text s s ≡ true
same_text_self [] = refl
same_text_self (c ∷ s) = ground (arith, same_text_self s)

-- The surrogates, which `str.encode("utf-8")` refuses.
abbrev pub is_surrogate : ℕ → Bool
is_surrogate c = leb 55296 c && leb c 57343

abbrev code_size : ℕ → ℕ
code_size c = if ltb c 128 then 1 else (if ltb c 2048 then 2 else (if ltb c 65536 then 3 else 4))

-- len(value.encode("utf-8"))
unfoldable pub utf8_size : Text → ℕ
utf8_size [] = 0
utf8_size (c ∷ rest) = code_size c + utf8_size rest
