-- ===== src/Discovery.antt =====
-- local-agent/internal/discovery/discovery.go: which BMCs the agent reports. The clients of the BMCs,
-- Go's net and net/url are parameters.
pub mod Config
pub mod Metadata
pub mod Scan
pub mod Static
mod Tests
use conduit_bmc.Base.{Text, Result, Bool, Option}

-- What the code reads of a `url.URL`.
pub record Url : Type 0 where
  pub scheme : Text
  pub host : Text
  pub hostname : Text
  pub port : Text
  pub path : Text

-- redfish.SerialConsoleInfo.
pub record SerialConsoleInfo : Type 0 where
  pub supported : Bool
  pub vendor : Text
  pub fallback_to_ipmi : Bool
  pub serial_path : Text

-- `discover_serial_console endpoint username password` is the client's answer or the error's text;
-- `contains` is IPNet.Contains.
pub record Network : Type 0 where
  pub parse_url : Text → Option Url
  pub split_host_port : Text → Option (Text × Text)
  pub discover_serial_console : Text → Text → Text → Result Text SerialConsoleInfo
  pub ipmi_accessible : Text → Bool
  pub redfish_accessible : Text → Bool
