-- ===== src/Lib.antt =====
-- A verification library for conduit-bmc: a gateway that gives users of a data centre access to the
-- BMCs (management controllers) of their servers through agents that run beside them.
--
-- The program's parts. Agents register with a gateway and report the BMC addresses that they reach; a
-- user's token carries a server context (a server, a customer, a BMC address, permissions), by which
-- the gateway admits a call and forwards it to the agent of that address. The manager keeps servers,
-- their locations and the gateways in a database, authenticates users and issues those tokens. Consoles
-- are sessions at the gateway: graphics (VNC) and serial-over-LAN (SOL); a browser that has opened one
-- comes back with a cookie, behind which the gateway keeps the token. A console's bytes go through a
-- stream of chunks between the gateway and the agent, with a proxy at each end. The agent speaks RFB to
-- a BMC's VNC server, logs in there, plays the server to the browser, and keeps the last output of a serial console in a ring for those who connect later.
--
-- Which file models what:
--   Gateway           gateway/internal/gateway/handler.go: the handler's state, the request's context,
--                     and its failures with their Connect codes
--   Gateway/Access    TokenValidationInterceptor, extractServerContextFromJWT and the guards
--   Gateway/Register  RegisterAgent, AgentHeartbeat
--   Gateway/Power     PowerOn, PowerOff, PowerCycle, Reset, GetPowerStatus, GetBMCInfo
--   Gateway/Console   the sessions: Create-, Get-, Close- of VNC and SOL, GetConsoleSessionByID,
--                     StartVNCProxy
--   Gateway/Reach     any sequence of the calls that change the gateway's state
--   Gateway/Tokens    the same behind the tokens that the manager issues
--   Gateway/Report    what handler.go reports of the gateway and its mapping to the manager
--   Gateway/Stream    gateway/internal/gateway/streaming.go: a console stream from the command line
--   Web               gateway/internal/session/{cookie,jwt,middleware}.go and, in
--                     gateway/internal/gateway, auth_interceptor.go, session_helper.go and
--                     session_interceptor.go: from a console's creation to a browser's later calls
--   Sessions          gateway/internal/session/store.go: the web sessions behind the consoles
--   Agents            gateway/internal/agent/registry.go
--   Types/Infer       core/types/bmc.go
--   Types/Endpoints   core/types/endpoints.go
--   Types/Server      core/domain/server.go
--   Types/Identity    core/identity/server.go
--   Types/Discovery   core/types/discovery.go; Proto is core/types/discovery_proto.go
--   Auth/Context      core/auth/context.go, core/auth/claims.go
--   Auth/Bearer       core/auth/jwt_extraction.go: the Authorization header
--   Auth/Crypto       what the tokens rely on, as parameters with laws; Auth/Sample is an instance
--   Auth/Token        manager/pkg/auth/auth.go, manager/pkg/auth/server_context.go
--   Auth/Decryptor    gateway/pkg/server_context/decrypt.go
--   Manager           manager/internal/manager/manager_handlers.go: Access (authentication), Servers
--                     (registration, look-ups, tokens), Report (what gateways report), Status (the
--                     gateways and the system's status), Messages and Discovery (conversions)
--   Manager/Models    manager/pkg/models/models.go
--   Manager/Database  manager/internal/database/models.go, repositories.go: a module per table
--   Manager/Sql       the SQL statements that these run; Manager/Sample is an instance
--   Discovery         local-agent/internal/discovery/discovery.go: Static (configured hosts), Scan (the
--                     networks), Metadata; Config is local-agent/pkg/config/config.go
--   LocalAgent        local-agent/internal/agent/agent.go (discovery and registration); Rpc is
--                     local-agent/internal/agent/rpc_handlers.go, Bmc local-agent/pkg/bmc/client.go
--   LocalAgent/Loop   agent.go: the first registration, the main loop and the heartbeats
--   LocalAgent/Stream local-agent/internal/agent/streaming.go: the streams that the gateway opens
--   Streaming         core/streaming/proxy.go, tcp_proxy.go: chunks, the handshake and the loops; Relay is
--                     a proxy at the gateway and one at the agent with the stream between them
--   Vnc/Native        Authenticate in local-agent/pkg/vnc/native_transport.go and websocket_transport.go
--   Vnc/Proxy         local-agent/pkg/vnc/rfb_proxy.go: the handshake with a browser
--   Vnc/Adapter       vncStreamAdapter in local-agent/internal/agent/streaming.go
--   Vnc/Transport     local-agent/pkg/vnc/transport.go: the choice of a transport
--   Rfb/Stream        local-agent/pkg/vnc/rfb/protocol.go: ProtocolReader, ProtocolWriter
--   Rfb/Version       local-agent/pkg/vnc/rfb/protocol.go: ProtocolVersion, ParseProtocolVersion
--   Rfb/Security      local-agent/pkg/vnc/rfb/handshake.go
--   Rfb/VncAuth       local-agent/pkg/vnc/rfb/auth.go
--   Sol               local-agent/pkg/sol/circular_buffer.go
--   Base              the types, lists, texts, maps and results that the parts share
-- A module's children hold its proofs and are named for what they prove; Tests modules hold runs and
-- the theorems at concrete inputs.
--
-- How it is modelled. A Go string is the list of its bytes, a time a number of nanoseconds that a
-- method takes as an argument, `(value, error)` a Result, and a map an association list: the
-- theorems speak of lookups, not of the list's order. A method takes the state and returns the new
-- one, and a call is one step. In the code most calls hold a lock throughout; those that create a
-- session look up the address and the agent before they lock the sessions to store the new one, which
-- is taken as one step too. The agents' registry and the sessions' store own what they hold. Numbers
-- are natural numbers, with bytes and words reduced modulo their size where the code converts.
-- `decimal` prints a number with one unit of fuel more than the number, of which each digit takes
-- one, so the fuel does not run out.
--
-- Parameters. DES of Go's crypto/des is a record of two functions with two laws, that blocks keep
-- their length and decryption undoes encryption. Auth/Crypto has AES-GCM, base64, JSON, JWT and UUIDs:
-- what is opened is what was sealed, decoding undoes encoding, and a token that has been signed is
-- parsed until it expires. That the JSON of a context is read back is a hypothesis where it is used.
-- Web/Claims has base64 and JSON without laws, Discovery the clients of the BMCs, URLs and networks,
-- and LocalAgent/Bmc the clients of IPMI and Redfish. Manager/Sql has the statements of the database
-- on one table, with laws on what look-ups by the primary key find behind a statement that has
-- succeeded; any statement may fail. The gateway's own theorems take the validation of tokens as a
-- function of which nothing is assumed. Random bytes and the clock's readings are arguments.
--
-- Not modelled: logging, sockets, HTTP and subprocesses, the generated protocol code, the manager's
-- dashboard for administrators with its joins and counts in SQL, the older database package,
-- the clients of IPMI and Redfish, the transports of SOL, the command line client, and
-- configuration. Of the streams, that the sends and reads of a connection may be cut off at any time is
-- modelled, their flow control is not.
pub mod Agents
pub mod Auth
pub mod Base
pub mod Discovery
pub mod Gateway
pub mod LocalAgent
pub mod Manager
pub mod Rfb
pub mod Sessions
pub mod Sol
pub mod Streaming
pub mod Types
pub mod Vnc
pub mod Web
