-- ===== src/Manager/Servers/Issued.antt =====
-- The manager's server tokens at the gateway.
use conduit_bmc.Base.{Text, ok, ℕ, ◌≡◌}
use conduit_bmc.Types.Server.{Server}
use conduit_bmc.Auth.Context.{ServerContext}
use conduit_bmc.Auth.Crypto.{Crypto}
use conduit_bmc.Auth.Crypto
use conduit_bmc.Gateway
use conduit_bmc.Gateway.Access.{authorize, may_write_power, may_read_power, may_use_console}
use conduit_bmc.Gateway.Tokens.{validator}
use conduit_bmc.Manager.{Context}
use conduit_bmc.Manager.Database.Servers

-- What the gateway grants to the bearer of a token for the server.
abbrev pub Granted : Crypto → Text → ℕ → Gateway.Context → Text → ServerContext → Type 0
Granted c key at after server_id sc =
    (authorize (validator c key) at after server_id may_write_power ≡ ok sc)
    × (authorize (validator c key) at after server_id may_read_power ≡ ok sc)
    × (authorize (validator c key) at after server_id may_use_console ≡ ok sc)
