-- ===== src/Protocols/Contract/Lookup.antt =====
-- In a validated profile every point is found at its own address.
use ot_soc_fusion_x.Base.{
  ◌≡◌, refl, Bool, true, false, ◌&&◌, none, some, List, [], ◌∷◌, Any, any, find_last, inl, inr, ok,
  pos, is_nat, arith, subst,
}
use ot_soc_fusion_x.Protocols.Model.{
  TableType, discrete_input, input_register, holding_register, table_is,
}
use ot_soc_fusion_x.Protocols.Profile.{PointDefinition, ModbusProfile, LoadedProfile, point_at}
use ot_soc_fusion_x.Protocols.Contract.{
  has_duplicate, same_address, validate_profile, validate_contract,
}

unique_addresses :
    (profile : ModbusProfile)
    → validate_profile profile ≡ ok tt
    → has_duplicate same_address profile.points ≡ false
unfolding validate_profile validate_contract
unique_addresses profile h = ground arith

table_is_self : (t : TableType) → table_is t t ≡ true
table_is_self discrete_input = refl
table_is_self input_register = refl
table_is_self holding_register = refl

abbrev is_at : PointDefinition → PointDefinition → Bool
is_at p q = table_is q.table_type p.table_type && is_nat (pos p.address_offset) q.address_offset

find_last-nothing :
    (p : PointDefinition) (points : List PointDefinition)
    → any (same_address p) points ≡ false
    → find_last (is_at p) points ≡ none
find_last-nothing p [] h = refl
find_last-nothing p (q ∷ points) h = ground (arith, find_last-nothing p points)

table_self : (p : PointDefinition) → is_at p p ≡ true
table_self p = ground (arith, table_is_self p.table_type)

find_last_self :
    (p : PointDefinition) (points : List PointDefinition)
    → has_duplicate same_address points ≡ false
    → Any (λ q. q ≡ p) points
    → find_last (is_at p) points ≡ some p
find_last_self p [] h m = elim m [ ]
find_last_self p (q ∷ points) h (inl e) =
    let alone = find_last-nothing q points (ground arith) in
    let self : is_at q q ≡ true = table_self q in
    subst (λ z. find_last (is_at z) (q ∷ points) ≡ some z) e (rw alone (rw self refl))
find_last_self p (q ∷ points) h (inr later) = rw (find_last_self p points (ground arith) later) refl

-- Every point of a validated profile is what the decoder finds at the point's own address.
pub point_at_self :
    (loaded : LoadedProfile) (p : PointDefinition)
    → validate_profile loaded.profile ≡ ok tt
    → Any (λ q. q ≡ p) loaded.profile.points
    → point_at loaded loaded.profile.unit_id p.table_type (pos p.address_offset) ≡ some p
unfolding point_at
point_at_self loaded p h m =
    ground (arith, find_last_self p loaded.profile.points (unique_addresses loaded.profile h) m)
