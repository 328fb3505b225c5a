-- ===== src/Server/Loops.antt =====
-- The loops that `waitForAuth` (cmd/authserver/auth.go) and `startForwardWithStop`
-- (cmd/authserver/forward.go) start: their beginning and single rounds.
use connauth.Common.{
  ℕ, String, Bool, true, false, not, ◌&&◌, Option, none, some, List, [], ◌∷◌, take, if◌then◌else◌,
  Result, ok, err,
}
use connauth.Library.{Library}
use connauth.World.{World}
use connauth.Protocol.Crypto.{Random}
use connauth.Limiter.{new_connection_limiter}
use connauth.Limiter.Refinement.{Holders}
use connauth.Limiter.Schedule.{Connections}
use connauth.Server.Config.{Config, ForwardConfig}
use connauth.Server.Clients.{ClientList, is_ip_authed}
use connauth.Server.Handler.{Server, Clock, handle_auth_packet}

-- The goroutines of `waitForAuth`: whether `stop` and the socket are closed, and whether the read loop
-- and the loop of the ticker have not returned.
pub record AuthLoops : Type 0 where
  pub stopped : Bool
  pub closed : Bool
  pub reading : Bool
  pub cleaning : Bool

-- The goroutines of a forward port. `waiting` has the address of each connection that was let in and
-- has not asked the limiter yet.
pub record PortLoops : Type 0 where
  pub stopped : Bool
  pub closed : Bool
  pub accepting : Bool
  pub refreshing : Bool
  pub waiting : Holders
  pub connections : Connections

-- When `done` is closed: every goroutine has returned.
unfoldable pub auth_done : AuthLoops → Bool
auth_done a = a.closed && (not a.reading && not a.cleaning)

unfoldable pub port_done : PortLoops → Bool
port_done p = p.closed && (not p.accepting && not p.refreshing)

-- Which sockets can be opened: the UDP address and the TCP ports.
pub record Sockets : Type 0 where
  pub listens_udp : String → Bool
  pub listens_tcp : ℕ → Bool

pub data ListenError : Type 0 where
  resolve_failed bind_failed : String → ListenError
  listen_failed : ℕ → ListenError

unfoldable pub wait_for_auth : Library → Sockets → String → Result ListenError AuthLoops
wait_for_auth lib net addr =
    if not (lib.resolve_udp_addr addr)
    then err (resolve_failed addr)
    else if not (net.listens_udp addr)
    then err (bind_failed addr)
    else ok (record { stopped = false; closed = false; reading = true; cleaning = true })

-- A port that has just been bound, with a limiter of its own.
abbrev pub fresh_port : ℕ → ℕ → PortLoops
fresh_port max_global max_per_ip = record {
  stopped = false;
  closed = false;
  accepting = true;
  refreshing = true;
  waiting = [];
  connections = record { limiter = new_connection_limiter max_global max_per_ip; active = [] };
}

-- `none` is a panic on a limit that is not given.
unfoldable pub start_forward : Sockets → ForwardConfig → Option (Result ListenError PortLoops)
start_forward net f =
    if not (net.listens_tcp f.bind_port)
    then some (err (listen_failed f.bind_port))
    else elim f.max_conn_global [
      | none ↦ none
      | some max_global ↦ elim f.max_conn_per_ip [
        | none ↦ none
        | some max_per_ip ↦ some (ok (fresh_port max_global max_per_ip))
      ]
    ]

-- What `ReadFromUDP` gives: an error, or a datagram with what the handler finds when it runs.
pub data ReadEvent (w : World) : Type 0 where
  read_failed : ReadEvent w
  received : Clock → Random w.crypto → Random w.crypto → String → List w.crypto.Byte → ReadEvent w

abbrev pub is_nil {ℓ} : {A : Type ℓ} → List A → Bool
is_nil [] = true
is_nil (x ∷ xs) = false

-- One round of the read loop: whether it goes on, and the new state. `none` is a panic.
unfoldable pub read_round : (w : World) → Bool → ReadEvent w → Server → Option (Bool × Server)
read_round w stopped read_failed s = some (not stopped, s)
read_round w stopped (received clock random_nonce random_seal peer datagram) s =
    let bytes = take 4096 datagram in
    if is_nil bytes
    then some (true, s)
    else elim (handle_auth_packet w s clock random_nonce random_seal peer bytes) [
      | none ↦ none
      | some h ↦ some (true, h.server)
    ]

pub data AcceptEvent : Type 0 where
  accept_failed : AcceptEvent
  accepted : String → ℕ → AcceptEvent

-- What becomes of an accepted connection before its goroutine asks the limiter.
pub data Admitted : Type 0 where
  lets_in : String → Admitted
  drops_after : ℕ → Admitted

-- One round of the accept loop of a port with its client map: whether it goes on, the new map, and the
-- connection. `none` is a panic.
unfoldable pub accept_round :
    Library
    → Config
    → ForwardConfig
    → Bool
    → AcceptEvent
    → ClientList
    → Option (Bool × ClientList × Option Admitted)
accept_round lib c f stopped accept_failed l = some (not stopped, l, none)
accept_round lib c f stopped (accepted ip now) l =
    let (authed, after) = is_ip_authed lib c f l ip now in
    if authed then some (true, after, some (lets_in ip)) else elim f.drop_delay_time [
      | none ↦ none
      | some delay ↦ some (true, after, some (drops_after delay))
    ]
