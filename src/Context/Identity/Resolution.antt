-- ===== src/Context/Identity/Resolution.antt =====
-- What a resolution means for the claims.
use ot_soc_fusion_x.Base.{
  ◌≤◌, ◌≡◌, ◌↔◌, refl, inl, inr, String, Bool, true, false, not, Option, none, some, List, [], ◌∷◌,
  map, length, any, present, All, Any, str_eq, eq_iff, arith, Bool-cases, Option-cases, ap,
}
use ot_soc_fusion_x.Platform.{Platform}
use ot_soc_fusion_x.Context.Model.{
  ResolutionStatus, IdentityClaim, AssetDefinition, AssetResolution,
}
use ot_soc_fusion_x.Context.Identity.{
  LoadedInventory, identified, unresolved, disagrees, resolved_as, resolve_known, resolve_identity,
}

-- Every claim names an asset with the key.
abbrev pub IsAgreed : LoadedInventory → List IdentityClaim → String → Type 0
IsAgreed inventory claims key =
    All
      (λ claim.
        (asset : AssetDefinition) × (identified inventory claim ≡ some asset)
        × (asset.asset_key ≡ key))
      claims

-- The three outcomes and what the claims are in each.
pub data IsResolution (platform : Platform) (inventory : LoadedInventory)
    (claims : List IdentityClaim) : AssetResolution → Type 0 where
  unknown :
      All (λ claim. identified inventory claim ≡ none) claims
      → IsResolution platform inventory claims (unresolved ResolutionStatus.unknown)
  conflict :
      (asset : AssetDefinition)
      → Any (λ claim. identified inventory claim ≡ some asset) claims
      → ((key : String) → ¬ IsAgreed inventory claims key)
      → IsResolution platform inventory claims (unresolved ResolutionStatus.conflict)
  agreed :
      (asset : AssetDefinition)
      → Any (λ claim. identified inventory claim ≡ some asset) claims
      → IsAgreed inventory claims asset.asset_key
      → IsResolution platform inventory claims (resolved_as platform asset)

module _ {A B : Type 0} (f : A → Option B) where
  present_nothing : (xs : List A) → present (map f xs) ≡ [] → All (λ x. f x ≡ none) xs
  present_nothing [] h = tt
  present_nothing (x ∷ xs) h = elim (Option-cases (f x)) [
    | inl n ↦ (n, present_nothing xs (rw n at h))
    | inr (b, e) ↦ cc (rw e at h)
  ]

  present_first :
      (xs : List A) {b : B} {rest : List B}
      → present (map f xs) ≡ b ∷ rest
      → Any (λ x. f x ≡ some b) xs
  present_first [] h = cc
  present_first (x ∷ xs) h = elim (Option-cases (f x)) [
    | inl n ↦ inr (present_first xs (rw n at h))
    | inr (b, e) ↦ let h' = rw e at h in inl (cc (h', e))
  ]

  length-present : (xs : List A) → length (present (map f xs)) ≤ length (map f xs)
  length-present [] = omega arith
  length-present (x ∷ xs) = elim (Option-cases (f x)) [
    | inl n ↦ rw n (omega (arith, length-present xs))
    | inr (b, e) ↦ rw e (omega (arith, length-present xs))
  ]

  -- No item is lost, and no image fails the test.
  abbrev IsFull : (B → Bool) → List A → Type 0
  IsFull test xs =
      (length (present (map f xs)) ≡ length (map f xs))
      × (any (λ b. not (test b)) (present (map f xs)) ≡ false)

  abbrev IsTotal : (B → Bool) → List A → Type 0
  IsTotal test = All (λ x. (b : B) × (f x ≡ some b) × (test b ≡ true))

  IsTotal-of_IsFull : (test : B → Bool) (xs : List A) → IsFull test xs → IsTotal test xs
  IsTotal-of_IsFull test [] h = tt
  IsTotal-of_IsFull test (x ∷ xs) h = elim (Option-cases (f x)) [
    | inl n ↦
        let short : length (present (map f xs)) ≡ length (f x ∷ map f xs) = rw n at h.0 in
        absurd (omega (arith, length-present xs, short))
    | inr (b, e) ↦
        let same : length (b ∷ present (map f xs)) ≡ length (f x ∷ map f xs) = rw e at h.0 in
        let passed : any (λ b. not (test b)) (b ∷ present (map f xs)) ≡ false = rw e at h.1 in
        (
          (b, e, ground (arith, passed)),
          IsTotal-of_IsFull test xs (omega (arith, same), ground (arith, passed)),
        )
  ]

  IsFull-of_IsTotal : (test : B → Bool) (xs : List A) → IsTotal test xs → IsFull test xs
  IsFull-of_IsTotal test [] h = (refl, refl)
  IsFull-of_IsTotal test (x ∷ xs) ((b, e, t), later) =
      let (same, passed) = IsFull-of_IsTotal test xs later in
      rw e (omega (arith, same), rw (t, passed) refl)

module _ (platform : Platform) (inventory : LoadedInventory) (claims : List IdentityClaim) where
  IsAgreed-of_IsTotal :
      (key : String) (xs : List IdentityClaim)
      → IsTotal (identified inventory) (λ a. str_eq a.asset_key key) xs
      → IsAgreed inventory xs key
  IsAgreed-of_IsTotal key [] h = tt
  IsAgreed-of_IsTotal key (x ∷ xs) ((a, e, t), later) =
      ((a, e, (eq_iff a.asset_key key).0 t), IsAgreed-of_IsTotal key xs later)

  IsTotal-of_IsAgreed :
      (key : String) (xs : List IdentityClaim)
      → IsAgreed inventory xs key
      → IsTotal (identified inventory) (λ a. str_eq a.asset_key key) xs
  IsTotal-of_IsAgreed key [] h = tt
  IsTotal-of_IsAgreed key (x ∷ xs) ((a, e, t), later) =
      ((a, e, (eq_iff a.asset_key key).1 t), IsTotal-of_IsAgreed key xs later)

  -- Claims that agree on a key agree on the key of the first asset.
  IsAgreed-key :
      (asset : AssetDefinition) (key : String) (xs : List IdentityClaim)
      → Any (λ claim. identified inventory claim ≡ some asset) xs
      → IsAgreed inventory xs key
      → key ≡ asset.asset_key
  IsAgreed-key asset key [] found h = elim found [ ]
  IsAgreed-key asset key (x ∷ xs) (inl e) ((a, e', same), later) =
      let one : a ≡ asset = cc (e, e') in cc (same, ap (λ (b : AssetDefinition). b.asset_key) one)
  IsAgreed-key asset key (x ∷ xs) (inr found) (first, later) = IsAgreed-key asset key xs found later

  -- The test of `resolve_known` passes exactly if the claims agree on the key.
  agrees_iff :
      (asset : AssetDefinition) (rest : List AssetDefinition)
      → present (map (identified inventory) claims) ≡ asset ∷ rest
      → (disagrees asset rest (map (identified inventory) claims) ≡ false)
        ↔ IsAgreed inventory claims asset.asset_key
  agrees_iff asset rest e =
      let test = λ (a : AssetDefinition). str_eq a.asset_key asset.asset_key in
      (
        λ h. IsAgreed-of_IsTotal asset.asset_key claims (
            IsTotal-of_IsFull (identified inventory) test claims
              (rw e (ground (arith, h), ground (arith, h)))),
        λ a.
            let full =
              IsFull-of_IsTotal (identified inventory) test claims
                (IsTotal-of_IsAgreed asset.asset_key claims a) in
            let full' = rw e at full in ground (arith, full'.0, full'.1),
      )

  known-IsResolution :
      (known : List AssetDefinition)
      → present (map (identified inventory) claims) ≡ known
      → IsResolution platform inventory claims
          (resolve_known platform (map (identified inventory) claims) known)
  unfolding resolve_known
  known-IsResolution [] e = unknown (present_nothing (identified inventory) claims e)
  known-IsResolution (asset ∷ rest) e =
      let found = present_first (identified inventory) claims e in
      elim (Bool-cases (disagrees asset rest (map (identified inventory) claims))) [
        | inl bad ↦
            rw (resolve_known, bad)
              (conflict asset found (λ key agreed.
                let same = IsAgreed-key asset key claims found agreed in
                let fine = (agrees_iff asset rest e).1 (rw same at agreed) in cc (bad, fine)))
        | inr good ↦
            rw (resolve_known, good) (agreed asset found ((agrees_iff asset rest e).0 good))
      ]

  -- Claims are unresolved as unknown if none of them names an asset, as a conflict if one names an
  -- asset but they do not all name assets of one key, and are otherwise resolved to an asset that one
  -- of them names and whose key they all name.
  pub resolve_identity-IsResolution :
      IsResolution platform inventory claims (resolve_identity platform claims inventory)
  unfolding resolve_identity
  resolve_identity-IsResolution =
      known-IsResolution (present (map (identified inventory) claims)) refl
