-- ===== src/Protocols/Claims.antt =====
-- backend/app/protocols/models.py: the validator of a semantic statement, which keeps words of policy or
-- intent out of it.
use ot_soc_fusion_x.Base.{
  ℕ, ◌+◌, String, Text, Bool, ◌&&◌, ◌||◌, List, [], ◌∷◌, map, leb, ◌==◌, any, codes, split,
  same_text, if◌then◌else◌,
}

-- The characters of ".,:;!?()[]".
abbrev is_punctuation : ℕ → Bool
is_punctuation c =
    c == 46
    || c == 44
    || c == 58
    || c == 59
    || c == 33
    || c == 63
    || c == 40
    || c == 41
    || c == 91
    || c == 93

abbrev strip_left : Text → Text
strip_left [] = []
strip_left (c ∷ rest) = if is_punctuation c then strip_left rest else c ∷ rest

abbrev strip_right : Text → Text
strip_right [] = []
strip_right (c ∷ rest) = elim (strip_right rest) [
  | [] ↦ if is_punctuation c then [] else c ∷ []
  | d ∷ more ↦ c ∷ d ∷ more
]

-- word.lower(), as far as it can give an ASCII letter: of the other characters only the Kelvin sign does.
abbrev lower : ℕ → ℕ
lower c = if leb 65 c && leb c 90 then c + 32 else (if c == 8490 then 107 else c)

abbrev prohibited : List String
prohibited =
    "attacker" ∷ "malicious" ∷ "unauthorized" ∷ "unsafe" ∷ "caused" ∷ "impact" ∷ "incident"
    ∷ "severity" ∷ []

-- Whether the validator refuses the statement.
unfoldable pub has_prohibited_claim : String → Bool
unfolding split
has_prohibited_claim value =
    any
      (λ word.
        any (λ term. same_text (map lower (strip_right (strip_left word))) (codes term)) prohibited)
      (map codes (split value))
