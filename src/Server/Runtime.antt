-- ===== src/Server/Runtime.antt =====
-- The server while it runs: the loops of Server/Loops in any order, with the channels that stop them.
-- Server/System has the state that they share.
pub mod Refines
pub mod Safe
pub mod Stops
pub mod Reached
pub mod History
pub mod Kept
pub mod Recorded
pub mod Guarded
pub mod Events
use connauth.Common.{
  ℕ, zero, suc, ◌<◌, ◌≡◌, String, Bool, true, false, Option, none, some, List, [], ◌∷◌, nat_eq,
  ◌==◌, if◌then◌else◌, Result, ok, err, get_elem?,
}
use connauth.Library.{Library}
use connauth.World.{World}
use connauth.Limiter.Refinement.{count, drop_one}
use connauth.Limiter.Schedule.{begin, finish}
use connauth.Server.Config.{Config, ForwardConfig}
use connauth.Server.Clients.{ClientList}
use connauth.Server.Handler.{Server}
use connauth.Server.System
use connauth.Server.System.{clean, refresh}
use connauth.Server.Loops.{
  AuthLoops, PortLoops, Sockets, wait_for_auth, start_forward, ReadEvent, read_failed, read_round,
  AcceptEvent, accept_failed, Admitted, lets_in, drops_after, accept_round,
}

-- `ports` has the loops of a forward port at its position, if it listens.
pub record Runtime : Type 0 where
  pub server : Server
  pub auth : AuthLoops
  pub ports : ℕ → Option PortLoops

-- `Main` has called `initClientList` and `waitForAuth`, and begins with the ports. When `waitForAuth`
-- fails, the error is logged and the ports are started all the same.
unfoldable pub begin_main : Library → Sockets → Config → Runtime
begin_main lib net c = record {
  server = System.start c;
  auth = elim (wait_for_auth lib net c.auth_addr) [
    | err e ↦ record { stopped = false; closed = false; reading = false; cleaning = false }
    | ok loops ↦ loops
  ];
  ports = λ i. none;
}

-- A ticker's loop after its round: it returns only when `stop` is closed.
abbrev pub MayReturn : Bool → Bool → Type 0
MayReturn stopped again = again ≡ false → stopped ≡ true

abbrev pub set_port : ℕ → PortLoops → Runtime → Runtime
set_port i p r = record r { ports = λ j. if j == i then some p else r.ports j }

abbrev pub let_in : Option Admitted → PortLoops → PortLoops
let_in none p = p
let_in (some (lets_in ip)) p = record p { waiting = ip ∷ p.waiting }
let_in (some (drops_after delay)) p = p

-- The client maps after an accept round of the port at a position.
abbrev pub set_clients : ℕ → ClientList → List ClientList → List ClientList
set_clients i l [] = []
set_clients zero l (m ∷ ms) = l ∷ ms
set_clients (suc i) l (m ∷ ms) = m ∷ set_clients i l ms

module _ (w : World) where
  -- `Main` closes `stop`, the first goroutine closes the socket, the second reads, the third is the
  -- ticker's.
  pub data AuthStep (r : Runtime) : Runtime → Type 0 where
    closes_stop : AuthStep r (record r { auth = record r.auth { stopped = true } })
    closes_socket :
        r.auth.stopped ≡ true → AuthStep r (record r { auth = record r.auth { closed = true } })
    reads :
        (e : ReadEvent w) (again : Bool) (s : Server)
        → r.auth.reading ≡ true
        → (r.auth.closed ≡ true → e ≡ read_failed)
        → read_round w r.auth.stopped e r.server ≡ some (again, s)
        → AuthStep r (record r { server = s; auth = record r.auth { reading = again } })
    cleans :
        (now : ℕ) (again : Bool)
        → r.auth.cleaning ≡ true
        → MayReturn r.auth.stopped again
        → AuthStep r
            (record r { server = clean r.server now; auth = record r.auth { cleaning = again } })

  -- `closes_stop` is for callers of startForwardWithStop: the channel that startForward makes is closed
  -- by nobody. A connection that was let in has a goroutine of its own, which `begins` and `finishes`.
  pub data PortStep (r : Runtime) (i : ℕ) (f : ForwardConfig) (p : PortLoops)
      : Runtime → Type 0 where
    closes_stop : PortStep r i f p (set_port i (record p { stopped = true }) r)
    closes_listener :
        p.stopped ≡ true → PortStep r i f p (set_port i (record p { closed = true }) r)
    accepts :
        (e : AcceptEvent) (l after : ClientList) (again : Bool) (a : Option Admitted)
        → p.accepting ≡ true
        → (p.closed ≡ true → e ≡ accept_failed)
        → get_elem? r.server.clients i ≡ some l
        → accept_round w.lib r.server.config f p.stopped e l ≡ some (again, after, a)
        → PortStep r i f p (
            set_port i (let_in a (record p { accepting = again })) (record r {
              server = record r.server { clients = set_clients i after r.server.clients };
            }))
    begins :
        (ip : String)
        → 0 < count ip p.waiting
        → PortStep r i f p (
            set_port i
              (record p { waiting = drop_one ip p.waiting; connections = begin p.connections ip })
              r)
    finishes :
        (ip : String)
        → 0 < count ip p.connections.active
        → PortStep r i f p (set_port i (record p { connections = finish p.connections ip }) r)
    refreshes :
        (now : ℕ) (again : Bool)
        → p.refreshing ≡ true
        → MayReturn p.stopped again
        → PortStep r i f p (
            set_port i
              (record p { refreshing = again })
              (record r { server = refresh r.server i now }))

  pub data Step (net : Sockets) (r : Runtime) : Runtime → Type 0 where
    starts :
        (i : ℕ) (f : ForwardConfig) (p : PortLoops)
        → r.ports i ≡ none
        → get_elem? r.server.config.forward_configs i ≡ some f
        → start_forward net f ≡ some (ok p)
        → Step net r (set_port i p r)
    auth : {t : Runtime} → AuthStep r t → Step net r t
    port :
        {t : Runtime} (i : ℕ) (f : ForwardConfig) (p : PortLoops)
        → r.ports i ≡ some p
        → get_elem? r.server.config.forward_configs i ≡ some f
        → PortStep r i f p t
        → Step net r t

  pub data Reach (net : Sockets) (r : Runtime) : Runtime → Type 0 where
    here : Reach net r r
    next : {s t : Runtime} → Reach net r s → Step net s t → Reach net r t
