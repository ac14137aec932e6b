-- ===== src/Manager/Database.antt =====
-- manager/internal/database: the tables and their repositories. A time that is zero, for which the
-- database writes its default, is left out.
pub mod Agents
pub mod Customers
pub mod Gateways
pub mod Locations
pub mod Servers
pub mod Sessions
use conduit_bmc.Manager.Sql.{Engine}
use conduit_bmc.Manager.Database.Agents.{AgentRow}
use conduit_bmc.Manager.Database.Customers.{CustomerRow}
use conduit_bmc.Manager.Database.Gateways.{RegionalGatewayRow}
use conduit_bmc.Manager.Database.Locations.{ServerLocationRow}
use conduit_bmc.Manager.Database.Servers.{ServerRow}
use conduit_bmc.Manager.Database.Sessions.{ProxySessionRow}

pub record BunDb (e : Engine) : Type 0 where
  pub servers : e.Table ServerRow
  pub customers : e.Table CustomerRow
  pub agents : e.Table AgentRow
  pub gateways : e.Table RegionalGatewayRow
  pub locations : e.Table ServerLocationRow
  pub sessions : e.Table ProxySessionRow
