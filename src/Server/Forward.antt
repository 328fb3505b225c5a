-- ===== src/Server/Forward.antt =====
-- The accept loop of cmd/authserver/forward.go: what becomes of one connection to a forward port.
pub mod Accept
use connauth.Common.{ℕ, ◌+◌, ◌*◌, String, Bool, not, Option, none, some, ltb, if◌then◌else◌}
use connauth.Library.{Library}
use connauth.Limiter.{ConnectionLimiter, acquire, release}
use connauth.Server.Config.{Config, ForwardConfig}
use connauth.Server.Clients.{ClientList, is_ip_authed}

-- The client map and the limiter of a forward port.
pub record Port : Type 0 where
  pub clients : ClientList
  pub limiter : ConnectionLimiter

-- `forwarded` has the deadline of both sockets, `closed_after` the delay in milliseconds.
pub data Fate : Type 0 where
  forwarded : Option ℕ → Fate
  dial_failed over_limit : Fate
  closed_after : ℕ → Fate

-- time.Millisecond, in nanoseconds
abbrev millisecond : ℕ
millisecond = 1_000_000

-- `dialed` says whether net.DialTimeout returns no error, and `now` is the time after it.
unfoldable pub handle_conn : Bool → ℕ → ℕ → Fate
handle_conn dialed now idle_timeout =
    if not dialed
    then dial_failed
    else forwarded (if ltb 0 idle_timeout then some (now + idle_timeout * millisecond) else none)

-- The goroutine of a connection that is let in, up to the copying. A connection that is not forwarded
-- gives its slot back.
unfoldable pub serve_conn :
    ForwardConfig → ConnectionLimiter → String → Bool → ℕ → Option (Fate × ConnectionLimiter)
serve_conn f limiter ip dialed now =
    let (taken_limiter, taken) = acquire limiter ip in
    if not taken then some (over_limit, taken_limiter) else elim f.dial_timeout_ms [
      | none ↦ none
      | some dial_timeout ↦ elim f.idle_timeout_ms [
        | none ↦ none
        | some idle_timeout ↦ some (
          handle_conn dialed now idle_timeout,
          if dialed then taken_limiter else release taken_limiter ip,
        )
      ]
    ]

abbrev pub on_port : ClientList → Fate × ConnectionLimiter → Fate × Port
on_port clients (fate, limiter) = (fate, record { clients = clients; limiter = limiter })

-- `none` is a panic on a setting that is not given.
unfoldable pub accept_conn :
    Library → Config → ForwardConfig → Port → String → ℕ → Bool → ℕ → Option (Fate × Port)
accept_conn lib c f port ip now dialed dialed_at =
    let (authed, clients) = is_ip_authed lib c f port.clients ip now in
    if authed
    then elim (serve_conn f port.limiter ip dialed dialed_at) [
      | none ↦ none
      | some served ↦ some (on_port clients served)
    ]
    else elim f.drop_delay_time [
      | none ↦ none
      | some delay ↦ some (closed_after delay, record { clients = clients; limiter = port.limiter })
    ]
