-- ===== src/Base/Sort.antt =====
-- Python's `sorted` on texts (by code points, which is the order of `compare`), alone and on the
-- items of a dictionary.
use Prim.Native.Nat.{Ordering}
use Prim.Native.String.{String, compare}
use mathlib.Core.List.{List, [], ◌∷◌}

-- Insertion of a text in an ordered list without repetitions.
abbrev insert_unique : String → List String → List String
insert_unique s [] = s ∷ []
insert_unique s (t ∷ rest) =
    let later = insert_unique s rest in
    elim (compare s t) [
      | Ordering.lt ↦ s ∷ t ∷ rest
      | Ordering.eq ↦ t ∷ rest
      | Ordering.gt ↦ t ∷ later
    ]

-- Insertion of a text in an ordered list.
abbrev insert_text : String → List String → List String
insert_text s [] = s ∷ []
insert_text s (t ∷ rest) =
    let later = insert_text s rest in
    elim (compare s t) [ Ordering.gt ↦ t ∷ later | _ ↦ s ∷ t ∷ rest ]

-- sorted(texts)
unfoldable pub sorted_list : List String → List String
sorted_list [] = []
sorted_list (s ∷ rest) = insert_text s (sorted_list rest)

-- sorted(set(texts))
unfoldable pub sorted_set : List String → List String
sorted_set [] = []
sorted_set (s ∷ rest) = insert_unique s (sorted_set rest)

module _ {ℓ} {V : Type ℓ} where
  abbrev insert_item : String × V → List (String × V) → List (String × V)
  insert_item (k, v) [] = (k, v) ∷ []
  insert_item (k, v) ((j, w) ∷ rest) =
      let later = insert_item (k, v) rest in
      elim (compare k j) [ Ordering.gt ↦ (j, w) ∷ later | _ ↦ (k, v) ∷ (j, w) ∷ rest ]

  -- sorted(d.items()), for a dictionary: no key occurs twice
  unfoldable pub sorted_items : List (String × V) → List (String × V)
  sorted_items [] = []
  sorted_items (i ∷ rest) = insert_item i (sorted_items rest)
