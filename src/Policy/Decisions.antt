-- ===== src/Policy/Decisions.antt =====
-- The names of decisions in both directions.
use rhel_fapolicyd.Base.{◌≡◌, refl, some, true, false, Bytes}
use rhel_fapolicyd.Policy.{dec_name_to_val, dec_val_to_name}
use rhel_fapolicyd.Rules.{Decision, no_opinion, decided, allow, deny}

-- Every decision of the enumeration has a name, and `dec_name_to_val` gives the decision back from
-- it.
pub dec_name_to_val-dec_val_to_name :
    (d : Decision)
    → (name : Bytes) × (dec_val_to_name d ≡ some name) × (dec_name_to_val name ≡ some d)
unfolding dec_val_to_name dec_name_to_val
dec_name_to_val-dec_val_to_name no_opinion = (_, refl, refl)
dec_name_to_val-dec_val_to_name (decided allow true true) = (_, refl, refl)
dec_name_to_val-dec_val_to_name (decided allow true false) = (_, refl, refl)
dec_name_to_val-dec_val_to_name (decided allow false true) = (_, refl, refl)
dec_name_to_val-dec_val_to_name (decided allow false false) = (_, refl, refl)
dec_name_to_val-dec_val_to_name (decided deny true true) = (_, refl, refl)
dec_name_to_val-dec_val_to_name (decided deny true false) = (_, refl, refl)
dec_name_to_val-dec_val_to_name (decided deny false true) = (_, refl, refl)
dec_name_to_val-dec_val_to_name (decided deny false false) = (_, refl, refl)
