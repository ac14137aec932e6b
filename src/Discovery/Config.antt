-- ===== src/Discovery/Config.antt =====
-- local-agent/pkg/config/config.go: the hosts that are configured by hand. An inference may panic, which
-- is none.
use conduit_bmc.Base.{if◌then◌else◌, Text, is_empty, Map, Option, none, some, List}
use conduit_bmc.Types.Endpoints.{
  TlsConfig, SolConfig, VncConfig, BmcControlEndpoint, SolEndpoint, VncEndpoint,
}
use conduit_bmc.Types.Infer.{infer_bmc_type, infer_sol_type, infer_vnc_type}
use mathlib.Core.Option

pub record ConfigBmcControlEndpoint : Type 0 where
  pub endpoint : Text
  pub bmc_type : Text
  pub username : Text
  pub password : Text
  pub tls : Option TlsConfig
  pub capabilities : List Text

pub record ConfigSolEndpoint : Type 0 where
  pub sol_type : Text
  pub endpoint : Text
  pub username : Text
  pub password : Text
  pub config : Option SolConfig

pub record ConfigVncEndpoint : Type 0 where
  pub vnc_type : Text
  pub endpoint : Text
  pub username : Text
  pub password : Text
  pub config : Option VncConfig

-- The metadata are none where the map is nil.
pub record BmcHost : Type 0 where
  pub id : Text
  pub customer_id : Text
  pub control_endpoints : List ConfigBmcControlEndpoint
  pub sol_endpoint : Option ConfigSolEndpoint
  pub vnc_endpoint : Option ConfigVncEndpoint
  pub features : List Text
  pub metadata : Option (Map Text)

-- A type that is set, or else what is inferred of the address.
abbrev or_inferred : Text → Option Text → Option Text
or_inferred t inferred = if is_empty t then inferred else some t

unfoldable pub to_control_endpoint : ConfigBmcControlEndpoint → Option BmcControlEndpoint
to_control_endpoint b =
    Option.map
      (λ t. record {
        endpoint = b.endpoint;
        bmc_type = t;
        username = b.username;
        password = b.password;
        tls = b.tls;
        capabilities = b.capabilities;
      })
      (or_inferred b.bmc_type (infer_bmc_type b.endpoint))

unfoldable pub to_sol_endpoint : ConfigSolEndpoint → Option SolEndpoint
to_sol_endpoint s =
    Option.map
      (λ t. record {
        sol_type = t;
        endpoint = s.endpoint;
        username = s.username;
        password = s.password;
        config = s.config;
      })
      (or_inferred s.sol_type (infer_sol_type s.endpoint))

unfoldable pub to_vnc_endpoint : ConfigVncEndpoint → Option VncEndpoint
to_vnc_endpoint v =
    Option.map
      (λ t. record {
        vnc_type = t;
        endpoint = v.endpoint;
        username = v.username;
        password = v.password;
        config = v.config;
        tls = none;
      })
      (or_inferred v.vnc_type (infer_vnc_type v.endpoint))
