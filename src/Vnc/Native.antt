-- ===== src/Vnc/Native.antt =====
-- `Authenticate` of local-agent/pkg/vnc/native_transport.go and websocket_transport.go, over a
-- connection, with `PerformVNCAuth` of local-agent/pkg/vnc/rfb/auth.go.
pub mod Cached
use conduit_bmc.Base.{
  leb, ◌==◌, if◌then◌else◌, Text, is_empty, ℕ, ◌+◌, true, not, some, List, [], ◌++◌,
}
use conduit_bmc.Rfb.Stream.{
  Conn, M, Error, ◌>>=◌, ◌>>◌, return, fail, lift, read_bytes, read_u32, write, to_be,
  password_missing, unsupported_security_type,
}
use conduit_bmc.Rfb.Version.{ProtocolVersion}
use conduit_bmc.Rfb.Security.{
  type_none, type_vnc_auth, negotiate_version, negotiate_security_type, read_security_result,
  send_client_init,
}
use conduit_bmc.Rfb.VncAuth.{Des, encrypt_vnc_challenge}

-- ServerInit as the transport caches it.
unfoldable pub read_server_init : M (List ℕ)
read_server_init = do
  header ← read_bytes 20
  name_length ← read_u32
  name ← if name_length == 0 then return [] else read_bytes name_length
  return (header ++ (to_be name_length ++ name))

module _ (des : Des) where
  unfoldable pub perform_vnc_auth : Text → M (Unit {0})
  perform_vnc_auth password = do
    challenge ← read_bytes 16
    response ← lift (encrypt_vnc_challenge des challenge password)
    write response

  unfoldable pub with_password : ProtocolVersion → Text → M (Unit {0})
  unfolding perform_vnc_auth
  with_password version password = do perform_vnc_auth password; read_security_result (some version)

  -- The switch on the security type.
  unfoldable pub authenticate_as : ProtocolVersion → Text → ℕ → M (Unit {0})
  unfolding with_password
  authenticate_as version password security =
      if security == type_none
      then if leb 8 version.minor then read_security_result (some version) else return tt
      else if security == type_vnc_auth
      then if is_empty password then fail password_missing else with_password version password
      else fail (unsupported_security_type security)

  unfoldable pub authenticate : Text → M (List ℕ)
  unfolding authenticate_as read_server_init
  authenticate password = do
    version ← negotiate_version
    security ← negotiate_security_type (some version) (not (is_empty password))
    authenticate_as version password security
    send_client_init (some version) true
    read_server_init
