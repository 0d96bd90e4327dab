-- ===== src/Incidents/Notes/Safety.antt =====
-- What `validate_note_text` accepts, stated without its tests.
use ot_soc_fusion_x.Base.{
  ℕ, ◌≤◌, ◌<◌, ◌≡◌, refl, ◌↔◌, ◌⊎◌, Text, false, [], ◌∷◌, ok, any, All, length, arith, ◌==◌,
}
use ot_soc_fusion_x.Incidents.Notes.{is_unsafe, validate_note_text}

-- A tab, a line feed, or a character outside the control characters of category Cc.
abbrev pub IsSafeChar : ℕ → Type 0
IsSafeChar c = ((c ≡ 9) ⊎ (c ≡ 10)) ⊎ (((32 ≤ c) × (c < 127)) ⊎ (160 ≤ c))

abbrev pub IsSafeText : ℕ → Text → Type 0
IsSafeText maximum text = (1 ≤ length text) × (length text ≤ maximum) × All IsSafeChar text

is_unsafe-false : (c : ℕ) → is_unsafe c ≡ false → IsSafeChar c
unfolding is_unsafe
is_unsafe-false c h = grind arith

IsSafeChar-test : (c : ℕ) → IsSafeChar c → is_unsafe c ≡ false
unfolding is_unsafe
IsSafeChar-test c h = ground arith

any-is_unsafe : (text : Text) → any is_unsafe text ≡ false → All IsSafeChar text
any-is_unsafe [] h = tt
any-is_unsafe (c ∷ text) h = (is_unsafe-false c (ground arith), any-is_unsafe text (ground arith))

All-IsSafeChar-any :
    (text : Text)
    → All IsSafeChar text
    → (any is_unsafe text ≡ false) × (any (λ c. c == 0) text ≡ false)
All-IsSafeChar-any [] h = (refl, refl)
All-IsSafeChar-any (c ∷ text) h =
    let rest = All-IsSafeChar-any text h.1 in
    (ground (arith, IsSafeChar-test c h.0, rest.0), ground (arith, rest.1))

-- The text is returned as it is, and exactly when its length is between 1 and the maximum and each
-- of its characters is safe.
pub validate_note_text_iff :
    (text : Text) (maximum : ℕ) (out : Text)
    → (validate_note_text text maximum ≡ ok out) ↔ ((out ≡ text) × IsSafeText maximum text)
unfolding validate_note_text
validate_note_text_iff text maximum out = (
  λ h. (ground arith, (ground arith, ground arith, any-is_unsafe text (ground arith))),
  λ h. ground (arith, All-IsSafeChar-any text h.1.2),
)
