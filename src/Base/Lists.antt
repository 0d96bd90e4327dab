-- ===== src/Base/Lists.antt =====
-- Lists measured by native numbers, and searched by Boolean tests.
use Prim.Native.Nat.{ℕ, suc, ◌+◌}
use mathlib.Core.Path.{◌≡◌, refl, subst, sym}
use mathlib.Core.Logic.{◌⊎◌, inl, inr}
use mathlib.Core.Bool.{Bool, true, false, ◌||◌}
use mathlib.Core.Option.{Option, none, some}
use mathlib.Core.List.{List, [], ◌∷◌, ◌++◌}
use native.Mathlib.Omega.{arith}
use ot_soc_fusion_x.Base.Tests.{if◌then◌else◌, Bool-cases}

module _ {ℓ} {A : Type ℓ} where
  abbrev pub length : List A → ℕ
  length [] = 0
  length (x ∷ xs) = suc (length xs)

  -- any(test(x) for x in xs)
  abbrev pub any : (A → Bool) → List A → Bool
  any test [] = false
  any test (x ∷ xs) = test x || any test xs

  -- next((x for x in xs if test(x)), None)
  abbrev pub find : (A → Bool) → List A → Option A
  find test [] = none
  find test (x ∷ xs) = if test x then some x else find test xs

  -- What a dictionary built from the items finds: the last item with the key.
  abbrev pub find_last : (A → Bool) → List A → Option A
  find_last test [] = none
  find_last test (x ∷ xs) = elim (find_last test xs) [
    | some y ↦ some y
    | none ↦ if test x then some x else none
  ]

  -- [x for x in xs if test(x)]
  abbrev pub select : (A → Bool) → List A → List A
  select test [] = []
  select test (x ∷ xs) = if test x then x ∷ select test xs else select test xs

  -- [x for x in xs if x is not None]
  abbrev pub present : List (Option A) → List A
  present [] = []
  present (none ∷ xs) = present xs
  present (some x ∷ xs) = x ∷ present xs

  -- A predicate holds of every item.
  abbrev pub All {κ} : (A → Type κ) → List A → Type κ
  All P [] = Unit
  All P (x ∷ xs) = P x × All P xs

module _ {ℓ} {A : Type ℓ} where
  pub length-append : (xs ys : List A) → length (xs ++ ys) ≡ length xs + length ys
  length-append [] ys = omega arith
  length-append (x ∷ xs) ys = omega (arith, length-append xs ys)

  -- What `find` returns passes the test.
  pub find-test : (test : A → Bool) (xs : List A) {a : A} → find test xs ≡ some a → test a ≡ true
  find-test test [] h = cc
  find-test test (x ∷ xs) {a} h = ground (arith, find-test test xs {a = a})

  pub select-append :
      (test : A → Bool) (xs ys : List A) → select test (xs ++ ys) ≡ select test xs ++ select test ys
  select-append test [] ys = refl
  select-append test (x ∷ xs) ys = ground (arith, select-append test xs ys)

  pub All-append {κ} : (P : A → Type κ) (xs ys : List A) → All P xs → All P ys → All P (xs ++ ys)
  All-append P [] ys hx hy = hy
  All-append P (x ∷ xs) ys hx hy = (hx.0, All-append P xs ys hx.1 hy)

  find_here :
      (test : A → Bool) (x : A) (xs : List A) {a : A}
      → test x ≡ true
      → find test (x ∷ xs) ≡ some a
      → x ≡ a
  find_here test x xs t e = ground arith

  pub All-find {κ} :
      (P : A → Type κ) (test : A → Bool) (xs : List A) {a : A}
      → All P xs
      → find test xs ≡ some a
      → P a
  All-find P test [] h e = cc
  All-find P test (x ∷ xs) {a} h e = elim (Bool-cases (test x)) [
    | inl t ↦ subst P (find_here test x xs t e) h.0
    | inr f ↦ All-find P test xs h.1 (rw f at e)
  ]

-- A predicate holds of some item.
abbrev pub Any {ℓ} : {A : Type ℓ} → (A → Type 0) → List A → Type 0
Any P [] = ⊥
Any P (x ∷ xs) = P x ⊎ Any P xs

module _ {ℓ} {A : Type ℓ} where
  pub any-append :
      (test : A → Bool) (xs ys : List A) → any test (xs ++ ys) ≡ (any test xs || any test ys)
  any-append test [] ys = refl
  any-append test (x ∷ xs) ys = ground (arith, any-append test xs ys)

  pub Any-map : (P Q : A → Type 0) (xs : List A) → ((a : A) → P a → Q a) → Any P xs → Any Q xs
  Any-map P Q [] f h = elim h [ ]
  Any-map P Q (x ∷ xs) f (inl h) = inl (f x h)
  Any-map P Q (x ∷ xs) f (inr h) = inr (Any-map P Q xs f h)

  -- What `find` returns is in the list.
  pub Any-find :
      (P : A → Type 0) (test : A → Bool) (xs : List A) {a : A}
      → find test xs ≡ some a
      → P a
      → Any P xs
  Any-find P test [] h p = cc
  Any-find P test (x ∷ xs) {a} h p = elim (Bool-cases (test x)) [
    | inl t ↦ inl (subst P (sym (find_here test x xs t h)) p)
    | inr f ↦ inr (Any-find P test xs (rw f at h) p)
  ]

  -- An item with one property has the other too, if all have it.
  pub All-Any {κ} :
      (P : A → Type κ) (Q : A → Type 0) (xs : List A) → All P xs → Any Q xs → (a : A) × P a × Q a
  All-Any P Q [] all h = elim h [ ]
  All-Any P Q (x ∷ xs) all (inl h) = (x, all.0, h)
  All-Any P Q (x ∷ xs) all (inr h) = All-Any P Q xs all.1 h
