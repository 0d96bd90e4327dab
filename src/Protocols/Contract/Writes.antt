-- ===== src/Protocols/Contract/Writes.antt =====
-- In a validated profile a write is interpreted only at a commandable holding register.
use ot_soc_fusion_x.Base.{
  any, ℕ, ◌≡◌, ◌∙◌, refl, subst, if◌then◌else◌, Bool, true, Option, none, some, List, [], ◌∷◌, ok,
  All, find_last, ◌==◌, pos, arith, Bool-cases, Option-cases, inl, inr, ℤ,
}
use ot_soc_fusion_x.Platform.{Sha256}
use ot_soc_fusion_x.Protocols.Model.{
  TableType, PointAccessClass, compatible, commandable_synthetic, holding_register, access_is,
  table_is, read_only,
}
use ot_soc_fusion_x.Protocols.Events.{SyntheticModbusEvent, ProtocolSemanticEvent}
use ot_soc_fusion_x.Protocols.Profile.{PointDefinition, LoadedProfile, point_at}
use ot_soc_fusion_x.Protocols.Decoder.{Derivation, decode_event}
use ot_soc_fusion_x.Protocols.Interpreted.{IsInterpreted-of, interpreted}
use ot_soc_fusion_x.Protocols.Compatible.{compatible_of}
use ot_soc_fusion_x.Protocols.Contract.{
  writes, validate_access, validate_representation, validate_points, validate_profile,
}

abbrev IsValidated : PointDefinition → Type 0
IsValidated p = validate_representation p ≡ ok tt

validate_points-All :
    (points : List PointDefinition) → validate_points points ≡ ok tt → All IsValidated points
unfolding validate_points
validate_points-All [] h = tt
validate_points-All (p ∷ points) h = (ground arith, validate_points-All points (ground arith))

All-find_last :
    (test : PointDefinition → Bool) (points : List PointDefinition) {p : PointDefinition}
    → All IsValidated points
    → find_last test points ≡ some p
    → IsValidated p
All-find_last test [] h e = cc
All-find_last test (q ∷ points) {p} h e = elim (Option-cases (find_last test points)) [
  | inr (r, f) ↦ All-find_last test points h.1 (f ∙ rw f at e)
  | inl n ↦
      let chosen : (if test q then some q else none) ≡ some p = rw n at e in
      elim (Bool-cases (test q)) [
        | inl t ↦ let same : q ≡ p = cc (rw t at chosen) in subst IsValidated same h.0
        | inr f ↦ cc (rw f at chosen)
      ]
]

point_at-IsValidated :
    (loaded : LoadedProfile) (unit_id : ℕ) (table_type : TableType) (offset : ℤ)
    {p : PointDefinition}
    → validate_profile loaded.profile ≡ ok tt
    → point_at loaded unit_id table_type offset ≡ some p
    → IsValidated p
unfolding point_at validate_profile
point_at-IsValidated loaded unit_id table_type offset {p} h e =
    let all = validate_points-All loaded.profile.points (ground arith) in
    elim (Bool-cases (loaded.profile.unit_id == unit_id)) [
      | inl t ↦ All-find_last _ loaded.profile.points all (rw t at e)
      | inr f ↦ cc (rw f at e)
    ]

-- A validated point that declares the write function is a commandable holding register.
validated_write :
    (p : PointDefinition)
    → IsValidated p
    → writes p ≡ true
    → (access_is p.access_class commandable_synthetic ≡ true)
      × (table_is p.table_type holding_register ≡ true)
unfolding validate_representation validate_access
validated_write p h w = (ground arith, ground arith)

access_is-eq : (a b : PointAccessClass) → access_is a b ≡ true → a ≡ b
access_is-eq commandable_synthetic commandable_synthetic h = refl
access_is-eq read_only read_only h = refl
access_is-eq commandable_synthetic read_only h = cc
access_is-eq read_only commandable_synthetic h = cc

-- With a validated profile, an event of function 6 gives a compatible semantic event only at a point that
-- is commandable.
pub write-commandable :
    (event : SyntheticModbusEvent) (loaded : LoadedProfile) (derivation : Derivation)
    (expected : Option Sha256) (verified : Bool) (r : ProtocolSemanticEvent)
    → validate_profile loaded.profile ≡ ok tt
    → event.function_code ≡ 6
    → decode_event event loaded derivation expected verified ≡ ok r
    → r.operation_compatibility ≡ compatible
    → r.point_access_class ≡ some commandable_synthetic
write-commandable event loaded derivation expected verified r valid six h e =
    let i = IsInterpreted-of event loaded derivation expected verified r h e in
    let point =
      point_at-IsValidated loaded event.unit_id i.table_type (pos i.offset) valid i.found in
    let used =
      subst (λ c. any (λ code. code == c) i.point.compatible_functions ≡ true) six i.usable in
    let (commandable, _) = validated_write i.point point used in
    let same : interpreted event loaded derivation i.function i.point i.decoded ≡ r =
      cc (h, compatible_of event loaded derivation expected verified i) in
    cc (same, access_is-eq i.point.access_class commandable_synthetic commandable)
