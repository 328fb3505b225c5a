-- ===== src/Lib.antt =====
-- connauth: a gate in front of TCP services. A client authenticates over UDP by a challenge and a
-- response, both sealed with a shared key, and the server then forwards TCP connections from that
-- client's address for a while.
--
-- The program's parts and the files about them:
-- - cmd/authserver/auth.go: the packet handlers are Server/Handler, the rule lists Server/Access, and
--   the maps of authorised clients Server/Clients. `handle_auth_packet` is handleAuthPacket with all
--   that it calls; its result says what was sent, which log entry was written or why the packet was
--   ignored, and what the new state is. `none` is a panic on a nil pointer or a nil map.
--   Server/System has the goroutines of waitForAuth and startForwardWithStop as steps on the shared
--   state, and what holds of the server in every state that it reaches. Server/Loops has how these
--   goroutines start and their single rounds, and Server/Runtime all of them together, with the sockets
--   and the channels that stop them, and the limiter of each port; Server/Runtime/History and Events have
--   what a run of it says of its past.
-- - cmd/authserver/challenge.go: Pending, the store of the challenges that wait for a response.
-- - cmd/authserver/forward.go: Limiter, the connection limiter, and Limiter/Schedule, the goroutines
--   that acquire and release its slots. Server/Forward is the accept loop: what becomes of a connection.
-- - cmd/authserver/config.go: Server/Config. Secrets has the checks of single texts, Rules the
--   resolution of access rules, Keys the keys and their periods, Check the whole of CheckValid.
-- - utils/authproto/protocol.go and crypto.go: Protocol and Protocol/Crypto.
-- - cmd/authclient/config.go, cmd/authclient/auth.go and utils/types.go: Client/Config, Client/Auth with
--   the failure counters in Client/Alarm and the loops of startAuthOfServer in Client/Loop, and Utils.
-- - utils/logger/sls.go: Logger, and Logger/Request for the signed HTTP request. Both logger.go:
--   Logger/Levels, Server/Logging and Client/Logging.
-- - cmd/authserver/main.go and cmd/authclient/main.go: Entry has what the two `main` share, Server/Startup
--   and Client/Startup what each of them runs with and starts.
-- - utils/service and utils/logrus/hooks/service.go: Service.
-- Handshake has both programs together: what the one seals the other opens, and a client that may
-- enter does. Common has the helpers that all of them share, and Examples the concrete inputs.
--
-- How they interact: the configuration that passes the check is what the handlers run on; the
-- handlers put challenges into the pending store and take them out, and enter clients into the maps that
-- the forwarder reads; the client builds the packets that the server opens.
--
-- Choices of the model. A mutex makes each of its sections one step. The packets are handled one
-- after the other by one goroutine, and a packet is one step: what the other goroutines do between its
-- two sections touches either the pending store or the client maps, and could as well come before
-- or after. A time is a number of nanoseconds since 1970, a moment as ℕ and a timestamp of a message
-- as ℤ in seconds; each reading of the clock is an argument. A map is an association list, whose
-- order stands for Go's arbitrary order; its keys are distinct by the invariants. An address is its
-- text. Ports, limits and seconds are ℕ: what the code computes with them stays within the width of
-- its Go types. The only fuel is that of the decimal print: a number plus one rounds, more than
-- it has digits.
--
-- What the program calls and does not implement is a parameter: `Library` for net, unicode, time.Parse
-- and the glob matcher, `Crypto` for AES-GCM, crypto/rand and base64, `Codec` for encoding/json,
-- `Remote` for net/http, the hashes and protobuf, `Manager` for the service manager, `Host` and
-- `Surroundings` for files and the environment, `Sockets` for which addresses can be bound. What a
-- theorem needs of them is a hypothesis (IsAead, IsRandom, IsCodec), and Examples has an instance.
--
-- Not modelled: io.Copy between the two sockets of a connection, the YAML reader, the protobuf encoder
-- with the methods that it asks of its messages, and the texts of the log lines. They are I/O, or
-- nothing that the program decides.
pub mod Common
pub mod Protocol
pub mod Text
pub mod Library
pub mod World
pub mod Server
pub mod Utils
pub mod Client
pub mod Pending
pub mod Limiter
pub mod Handshake
pub mod Logger
pub mod Service
pub mod Entry
pub mod Examples
