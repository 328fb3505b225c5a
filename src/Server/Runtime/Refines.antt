-- ===== src/Server/Runtime/Refines.antt =====
-- The running server keeps to Server/System, and each of its ports to Limiter/Schedule.
use connauth.Common.{
  ℕ, zero, suc, ◌+◌, ◌<◌, ◌≡◌, refl, ap, inl, inr, String, Bool, true, false, Option, none, some,
  List, [], ◌∷◌, arith, nat_eq, string_eq, ok, get_elem?, Bool-cases, Option-cases,
}
use connauth.Library.{Library}
use connauth.World.{World}
use connauth.Limiter.Refinement.{count, drop_one}
use connauth.Limiter.Schedule
use connauth.Limiter.Schedule.{Connections, begin, finish, begins, finishes}
use connauth.Server.Config.{Config, ForwardConfig}
use connauth.Server.Clients.{ClientList, is_ip_authed}
use connauth.Server.System.{check_at}
use connauth.Server.Loops.{
  PortLoops, Sockets, fresh_port, start_forward, accept_failed, accepted, Admitted, lets_in,
  drops_after, accept_round,
}
use connauth.Server.Runtime.{let_in, set_clients}

-- The connections of a port, between isIPAuthed and their end.
abbrev pub held_by : String → PortLoops → ℕ
held_by ip p = count ip p.waiting + count ip p.connections.active

pub record IsPort (w : World) (c : Config) (i : ℕ) (p : PortLoops) : Type 0 where
  pub f : ForwardConfig
  pub at : get_elem? c.forward_configs i ≡ some f
  pub max_global : ℕ
  pub max_per_ip : ℕ
  pub global_limit : f.max_conn_global ≡ some max_global
  pub ip_limit : f.max_conn_per_ip ≡ some max_per_ip
  pub schedule : Schedule.Reach (Schedule.start max_global max_per_ip) p.connections
  pub listener : p.closed ≡ true → p.stopped ≡ true
  pub accepting : p.accepting ≡ false → p.stopped ≡ true
  pub refreshing : p.refreshing ≡ false → p.stopped ≡ true

pub set_clients_same :
    (i : ℕ) (ls : List ClientList) (l : ClientList)
    → get_elem? ls i ≡ some l
    → set_clients i l ls ≡ ls
set_clients_same i [] l h = refl
set_clients_same zero (m ∷ ls) l h = let same : m ≡ l = cc h in rw same refl
set_clients_same (suc i) (m ∷ ls) l h =
    ap (λ (t : List ClientList). m ∷ t) (set_clients_same i ls l h)

pub check_at-set_clients :
    (lib : Library) (c : Config) (i : ℕ) (ip : String) (now : ℕ) (fs : List ForwardConfig)
    (ls : List ClientList) (f : ForwardConfig) (l : ClientList)
    → get_elem? fs i ≡ some f
    → get_elem? ls i ≡ some l
    → check_at lib c i ip now fs ls ≡ set_clients i (is_ip_authed lib c f l ip now).1 ls
unfolding check_at
check_at-set_clients lib c i ip now [] ls f l hf hl = absurd (cc hf)
check_at-set_clients lib c i ip now (g ∷ fs) [] f l hf hl = refl
check_at-set_clients lib c zero ip now (g ∷ fs) (m ∷ ls) f l hf hl =
    let same : m ≡ l = cc hl in let same' : g ≡ f = cc hf in rw (same, same') refl
check_at-set_clients lib c (suc i) ip now (g ∷ fs) (m ∷ ls) f l hf hl =
    ap (λ (t : List ClientList). m ∷ t) (check_at-set_clients lib c i ip now fs ls f l hf hl)

fresh_port-IsPort :
    (w : World) (c : Config) (i : ℕ) (f : ForwardConfig) (max_global max_per_ip : ℕ)
    → get_elem? c.forward_configs i ≡ some f
    → f.max_conn_global ≡ some max_global
    → f.max_conn_per_ip ≡ some max_per_ip
    → IsPort w c i (fresh_port max_global max_per_ip)
fresh_port-IsPort w c i f max_global max_per_ip at global per_ip = record {
  f = f;
  at = at;
  max_global = max_global;
  max_per_ip = max_per_ip;
  global_limit = global;
  ip_limit = per_ip;
  schedule = Schedule.here;
  listener = λ e. cc e;
  accepting = λ e. cc e;
  refreshing = λ e. cc e;
}

pub start_forward-IsPort :
    (w : World) (c : Config) (net : Sockets) (i : ℕ) (f : ForwardConfig) (p : PortLoops)
    → get_elem? c.forward_configs i ≡ some f
    → start_forward net f ≡ some (ok p)
    → IsPort w c i p
unfolding start_forward
start_forward-IsPort w c net i f p at h = elim (Bool-cases (net.listens_tcp f.bind_port)) [
  | inr refused ↦ absurd (ground (arith, h, refused))
  | inl bound ↦ elim (Option-cases f.max_conn_global) [
    | inl e ↦ absurd (ground (arith, h, bound, e))
    | inr (g, global) ↦ elim (Option-cases f.max_conn_per_ip) [
      | inl e ↦ absurd (ground (arith, h, bound, global, e))
      | inr (k, per_ip) ↦
          let same : fresh_port g k ≡ p = ground (arith, h, bound, global, per_ip) in
          rw (← same) (fresh_port-IsPort w c i f g k at global per_ip)
    ]
  ]
]

module _ (w : World) (c : Config) (i : ℕ) (p : PortLoops) (q : IsPort w c i p) where
  pub begin-IsPort :
      (ip : String)
      → 0 < count ip p.waiting
      → IsPort w c i
          (record p { waiting = drop_one ip p.waiting; connections = begin p.connections ip })
  begin-IsPort ip waits = record {
    f = q.f;
    at = q.at;
    max_global = q.max_global;
    max_per_ip = q.max_per_ip;
    global_limit = q.global_limit;
    ip_limit = q.ip_limit;
    schedule = Schedule.next q.schedule (begins ip);
    listener = q.listener;
    accepting = q.accepting;
    refreshing = q.refreshing;
  }

  pub finish-IsPort :
      (ip : String)
      → 0 < count ip p.connections.active
      → IsPort w c i (record p { connections = finish p.connections ip })
  finish-IsPort ip held = record {
    f = q.f;
    at = q.at;
    max_global = q.max_global;
    max_per_ip = q.max_per_ip;
    global_limit = q.global_limit;
    ip_limit = q.ip_limit;
    schedule = Schedule.next q.schedule (finishes ip held);
    listener = q.listener;
    accepting = q.accepting;
    refreshing = q.refreshing;
  }

  -- A change of the channels and the loops alone, to ones that end only when the port is stopped.
  pub loops-IsPort :
      (stopped closed accepting refreshing : Bool)
      → (closed ≡ true → stopped ≡ true)
      → (accepting ≡ false → stopped ≡ true)
      → (refreshing ≡ false → stopped ≡ true)
      → IsPort w c i (record p {
        stopped = stopped;
        closed = closed;
        accepting = accepting;
        refreshing = refreshing;
      })
  loops-IsPort stopped closed accepting refreshing listener accepts refreshes = record {
    f = q.f;
    at = q.at;
    max_global = q.max_global;
    max_per_ip = q.max_per_ip;
    global_limit = q.global_limit;
    ip_limit = q.ip_limit;
    schedule = q.schedule;
    listener = listener;
    accepting = accepts;
    refreshing = refreshes;
  }

  pub let_in-IsPort : (a : Option Admitted) → IsPort w c i (let_in a p)
  let_in-IsPort none = q
  let_in-IsPort (some (drops_after delay)) = q
  let_in-IsPort (some (lets_in ip)) = record {
    f = q.f;
    at = q.at;
    max_global = q.max_global;
    max_per_ip = q.max_per_ip;
    global_limit = q.global_limit;
    ip_limit = q.ip_limit;
    schedule = q.schedule;
    listener = q.listener;
    accepting = q.accepting;
    refreshing = q.refreshing;
  }

-- The state of a round of the accept loop that took a connection.
pub accept_round_cases :
    (lib : Library) (c : Config) (f : ForwardConfig) (stopped : Bool) (ip : String) (now : ℕ)
    (l after : ClientList) (again : Bool) (a : Option Admitted)
    → accept_round lib c f stopped (accepted ip now) l ≡ some (again, after, a)
    → (again ≡ true)
      × (after ≡ (is_ip_authed lib c f l ip now).1)
      × ((j : String)
          → a ≡ some (lets_in j)
          → (ip ≡ j) × ((is_ip_authed lib c f l ip now).0 ≡ true))
unfolding accept_round
accept_round_cases lib c f stopped ip now l after again a h =
    elim (Bool-cases (is_ip_authed lib c f l ip now).0) [
      | inl authed ↦ (
        ground (arith, h, authed),
        ground (arith, h, authed),
        λ j e. (ground (arith, h, authed, e), authed),
      )
      | inr stranger ↦ elim (Option-cases f.drop_delay_time) [
        | inl e ↦ absurd (ground (arith, h, stranger, e))
        | inr (delay, given) ↦ (
          ground (arith, h, stranger, given),
          ground (arith, h, stranger, given),
          λ j e. absurd (ground (arith, h, stranger, given, e)),
        )
      ]
    ]

pub accept_round_failed :
    (lib : Library) (c : Config) (f : ForwardConfig) (stopped : Bool) (l after : ClientList)
    (again : Bool) (a : Option Admitted)
    → accept_round lib c f stopped accept_failed l ≡ some (again, after, a)
    → (l ≡ after) × (a ≡ none) × (again ≡ false → stopped ≡ true)
unfolding accept_round
accept_round_failed lib c f stopped l after again a h =
    (ground (arith, h), ground (arith, h), λ ends. ground (arith, h, ends))
