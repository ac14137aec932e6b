-- ===== src/Vnc/Proxy.antt =====
-- `HandleBrowserHandshake` of local-agent/pkg/vnc/rfb_proxy.go: the agent as the RFB server of a browser.
pub mod Admits
use conduit_bmc.Base.{
  leb, ◌==◌, if◌then◌else◌, length, get_or, Text, str, Result, ok, err, ℕ, Bool, true, false, not,
  List, [], ◌∷◌,
}
use conduit_bmc.Rfb.Stream.{Error, to_be, bad_selection, no_server_init}
use conduit_bmc.Rfb.Version.{ProtocolVersion, parse_protocol_version}
use conduit_bmc.Rfb.Security.{type_none}

-- An `io.ReadWriter` below `ReadFull` and `Write`: `ReadBytes(n)` and `Write`, on a connection in S.
pub record Wire (S : Type 0) : Type 0 where
  pub read_bytes : ℕ → S → Result Error (List ℕ) × S
  pub write : List ℕ → S → Result Error (Unit {0}) × S

abbrev pub Via : Type 0 → Type 0 → Type 0
Via S A = S → Result Error A × S

abbrev pub continue : {S A B : Type 0} → Result Error A × S → (A → Via S B) → Result Error B × S
continue (ok a, s) f = f a s
continue (err e, s) f = (err e, s)

infixl 5 ◌>>=◌ ◌>>◌
abbrev pub ◌>>=◌ : {S A B : Type 0} → Via S A → (A → Via S B) → Via S B
◌>>=◌ m f s = continue (m s) f

abbrev pub ◌>>◌ : {S B : Type 0} → Via S (Unit {0}) → Via S B → Via S B
m >> k = m >>= λ _. k

abbrev pub return : {S A : Type 0} → A → Via S A
return a s = (ok a, s)

abbrev pub check : {S : Type 0} → Bool → Error → Via S (Unit {0})
check true e s = (ok tt, s)
check false e s = (err e, s)

abbrev pub lift : {S A : Type 0} → Result Error A → Via S A
lift r s = (r, s)

abbrev pub version_38 : Text
version_38 = str "RFB 003.008\n"

module _ {S : Type 0} (wire : Wire S) where
  open wire use {read_bytes, write}

  browser_u8 : Via S ℕ
  browser_u8 = do buf ← read_bytes 1; return (get_or buf 0 0)

  offer_list : Via S (Unit {0})
  offer_list = do
    write (1 ∷ [])
    write (type_none ∷ [])
    selected ← browser_u8
    check (selected == type_none) (bad_selection selected)
    write (to_be 0)

  -- To a browser of RFB 3.7 or later a list of one type and a result, to others the type itself.
  offer_security : ProtocolVersion → Via S (Unit {0})
  unfolding offer_list
  offer_security v = if leb 7 v.minor then offer_list else write (to_be type_none)

  -- The browser's ClientInit is read, and its flag is only logged.
  unfoldable pub handle_browser_handshake : List ℕ → Via S (Unit {0})
  unfolding offer_security browser_u8
  handle_browser_handshake server_init = do
    write version_38
    bytes ← read_bytes 12
    version ← lift (parse_protocol_version bytes)
    offer_security version
    shared ← browser_u8
    check (not (length server_init == 0)) no_server_init
    write server_init
