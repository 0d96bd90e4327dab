-- ===== src/Incidents/Rows.antt =====
-- The rows of one incident in a table, when a row is appended.
use ot_soc_fusion_x.Base.{
  ◌≡◌, ◌∙◌, Bool, true, false, List, [], ◌∷◌, ◌++◌, select, select-append, append-nil, str_eq,
  eq_iff, arith, String,
}

module _ {ℓ} {A : Type ℓ} (test : A → Bool) (rows : List A) (row : A) where
  pub select-append_pass :
      test row ≡ true → select test (rows ++ row ∷ []) ≡ select test rows ++ row ∷ []
  select-append_pass h = select-append test rows (row ∷ []) ∙ rw h

  pub select-append_fail : test row ≡ false → select test (rows ++ row ∷ []) ≡ select test rows
  select-append_fail h = select-append test rows (row ∷ []) ∙ rw (h, append-nil)

pub str_eq_self : (a b : String) → a ≡ b → str_eq a b ≡ true
str_eq_self a b e = (eq_iff a b).1 e

pub str_eq-ne : (a b : String) → ¬ (a ≡ b) → str_eq a b ≡ false
str_eq-ne a b h = ground (arith, λ (q : str_eq a b ≡ true). h ((eq_iff a b).0 q))
