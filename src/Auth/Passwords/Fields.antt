-- ===== src/Auth/Passwords/Fields.antt =====
-- Splitting what was joined by the separator.
use ot_soc_fusion_x.Base.{
  ◌≡◌, refl, ◌∙◌, ap, false, List, [], ◌∷◌, ◌++◌, any, ◌==◌, arith, Text, All,
}
use ot_soc_fusion_x.Auth.Passwords.{join_fields, split_fields}

abbrev pub IsField : Text → Type 0
IsField part = any (λ c. c == 36) part ≡ false

split_fields-last : (part : Text) → IsField part → split_fields part ≡ part ∷ []
unfolding split_fields
split_fields-last [] h = refl
split_fields-last (c ∷ part) h = ground (arith, split_fields-last part)

split_fields-first :
    (part rest : Text) → IsField part → split_fields (part ++ 36 ∷ rest) ≡ part ∷ split_fields rest
unfolding split_fields
split_fields-first [] rest h = refl
split_fields-first (c ∷ part) rest h = ground (arith, split_fields-first part rest)

pub split_fields-join :
    (part : Text) (parts : List Text)
    → All IsField (part ∷ parts)
    → split_fields (join_fields (part ∷ parts)) ≡ part ∷ parts
unfolding join_fields
split_fields-join part [] h = split_fields-last part h.0
split_fields-join part (next ∷ rest) h =
    split_fields-first part (join_fields (next ∷ rest)) h.0
    ∙ ap (λ ps. part ∷ ps) (split_fields-join next rest h.1)
