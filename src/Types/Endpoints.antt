-- ===== src/Types/Endpoints.antt =====
-- core/types/endpoints.go and the constants of core/types/bmc.go: how a server's BMC is reached.
use conduit_bmc.Base.{Text, str, ℕ, Bool, Option, List}

-- BMCType, SOLType and VNCType are strings; these are their constants.
abbrev pub bmc_ipmi : Text
bmc_ipmi = str "ipmi"

abbrev pub bmc_redfish : Text
bmc_redfish = str "redfish"

abbrev pub sol_ipmi : Text
sol_ipmi = str "ipmi"

abbrev pub sol_redfish_serial : Text
sol_redfish_serial = str "redfish_serial"

abbrev pub vnc_native : Text
vnc_native = str "native"

abbrev pub vnc_websocket : Text
vnc_websocket = str "websocket"

pub record TlsConfig : Type 0 where
  pub enabled : Bool
  pub insecure_skip_verify : Bool
  pub ca_cert : Text

pub record BmcControlEndpoint : Type 0 where
  pub endpoint : Text
  pub bmc_type : Text
  pub username : Text
  pub password : Text
  pub tls : Option TlsConfig
  pub capabilities : List Text

pub record SolConfig : Type 0 where
  pub baud_rate : ℕ
  pub flow_control : Text
  pub timeout_seconds : ℕ

pub record SolEndpoint : Type 0 where
  pub sol_type : Text
  pub endpoint : Text
  pub username : Text
  pub password : Text
  pub config : Option SolConfig

pub record VncConfig : Type 0 where
  pub protocol : Text
  pub path : Text
  pub display : ℕ
  pub read_only : Bool

pub record VncEndpoint : Type 0 where
  pub vnc_type : Text
  pub endpoint : Text
  pub username : Text
  pub password : Text
  pub config : Option VncConfig
  pub tls : Option TlsConfig
