-- ===== src/Types/Infer/Table.antt =====
-- When the inference panics, and what it infers otherwise.
use conduit_bmc.Base.{
  ◌≡◌, ◌==◌, refl, leb, if◌then◌else◌, Bool, true, false, not, ◌&&◌, ◌||◌, none, some, [], ◌∷◌,
  Text, str, same, length, take, arith, suc,
}
use conduit_bmc.Types.Infer.{slice_to, test_slice, infer, infer_bmc_type}

-- Prefixes, without slices.
abbrev pub has_prefix : Text → Text → Bool
has_prefix [] s = true
has_prefix (p ∷ ps) [] = false
has_prefix (p ∷ ps) (c ∷ cs) = (c == p) && has_prefix ps cs

has_prefix-take :
    (p s : Text) → has_prefix p s ≡ (leb (length p) (length s) && same (take (length p) s) p)
unfolding same
has_prefix-take [] s = ground arith
has_prefix-take (p ∷ ps) [] = ground arith
has_prefix-take (p ∷ ps) (c ∷ cs) = ground (arith, has_prefix-take ps cs)

abbrev pub inferred : Text → Text → Text → Text → Text → Text
inferred p q positive negative e = if has_prefix p e || has_prefix q e then positive else negative

take_self : (s : Text) → take (length s) s ≡ s
take_self [] = refl
take_self (c ∷ s) = ground (arith, take_self s)

infer-table :
    (p q positive negative e : Text)
    → length q ≡ suc (length p)
    → infer (length p) p (length q) q positive negative e ≡ (
        if (length e == length p) && not (has_prefix p e)
        then none
        else some (inferred p q positive negative e))
unfolding infer test_slice slice_to
infer-table p q positive negative e h = ground (arith, has_prefix-take p e, has_prefix-take q e, h)

-- `InferBMCType` panics exactly at an address of seven bytes other than "http://"; it infers
-- "redfish" from any other one that begins with "http://" or "https://", and else "ipmi".
pub infer_bmc_type_table :
    (e : Text)
    → infer_bmc_type e ≡ (
        if (length e == 7) && not (has_prefix (str "http://") e)
        then none
        else some (inferred (str "http://") (str "https://") (str "redfish") (str "ipmi") e))
unfolding infer_bmc_type
infer_bmc_type_table e =
    infer-table (str "http://") (str "https://") (str "redfish") (str "ipmi") e refl
