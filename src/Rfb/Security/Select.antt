-- ===== src/Rfb/Security/Select.antt =====
-- What `selectSecurityType` chooses.
use conduit_bmc.Base.{
  ℕ, ◌==◌, ◌≡◌, if◌then◌else◌, Bool, true, false, not, ◌&&◌, ◌||◌, List, [], ◌∷◌, arith,
}
use conduit_bmc.Rfb.Security.{
  scan_types, choose, select_security_type, type_none, type_vnc_auth, type_invalid,
}

-- The server offers the type.
abbrev pub offers : List ℕ → ℕ → Bool
offers [] t = false
offers (x ∷ xs) t = x == t || offers xs t

scan_types-offers :
    (n v : Bool) (ts : List ℕ)
    → scan_types n v ts ≡ (n || offers ts type_none, v || offers ts type_vnc_auth)
unfolding scan_types
scan_types-offers n v [] = ground arith
scan_types-offers n v (t ∷ ts) = ground (
  arith,
  scan_types-offers (if t == type_none then true else n) (if t == type_vnc_auth then true else v)
      ts,
)

-- The choice as a table over what is offered and preferred: VNC authentication if it is offered,
-- unless it is not preferred and no authentication is offered; else no authentication if that is
-- offered; else the invalid type.
pub select_security_type_table :
    (types : List ℕ) (prefer : Bool)
    → select_security_type types prefer ≡ (
        if offers types type_vnc_auth && (prefer || not (offers types type_none))
        then type_vnc_auth
        else if offers types type_none
        then type_none
        else type_invalid)
unfolding select_security_type choose
select_security_type_table types prefer = ground (arith, scan_types-offers false false types)
