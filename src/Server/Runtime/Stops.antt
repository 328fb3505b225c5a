-- ===== src/Server/Runtime/Stops.antt =====
-- A server or a forward port that is stopped can always come to its end.
use connauth.Common.{
  ℕ, zero, suc, ◌≡◌, refl, true, false, none, some, List, [], ◌∷◌, arith, inl, inr, Bool-cases,
  get_elem?, eqb_refl, nat_eq,
}
use connauth.World.{World}
use connauth.Server.Config.{ForwardConfig}
use connauth.Server.Clients.{ClientList}
use connauth.Server.Clients.Grant.Everywhere.{Served}
use connauth.Server.System.{clean, refresh}
use connauth.Server.Loops.{
  PortLoops, Sockets, read_failed, read_round, accept_failed, accept_round, auth_done, port_done,
}
use connauth.Server.Runtime.{
  Runtime, set_port, set_clients, Reach, here, next, auth, port, reads, cleans, closes_socket,
  closes_listener, accepts, refreshes,
}

pub Served-get_elem :
    (fs : List ForwardConfig) (ls : List ClientList) (i : ℕ) (f : ForwardConfig)
    → Served fs ls
    → get_elem? fs i ≡ some f
    → (l : ClientList) × (get_elem? ls i ≡ some l)
Served-get_elem [] ls i f s h = cc h
Served-get_elem (g ∷ fs) [] i f s h = absurd s
Served-get_elem (g ∷ fs) (l ∷ ls) zero f s h = (l, refl)
Served-get_elem (g ∷ fs) (l ∷ ls) (suc i) f s h = Served-get_elem fs ls i f s.2 h

module _ (w : World) (net : Sockets) where
  pub Reach-trans : {r s t : Runtime} → Reach w net r s → Reach w net s t → Reach w net r t
  Reach-trans a here = a
  Reach-trans a (next b st) = next (Reach-trans a b) st

  -- The read loop ends at a read that fails, as every read of a closed socket does.
  reading_ends :
      (r : Runtime)
      → r.auth.stopped ≡ true
      → (t : Runtime) × Reach w net r t
        × (t.auth.stopped ≡ true)
        × (t.auth.closed ≡ r.auth.closed)
        × (t.auth.reading ≡ false)
  unfolding read_round
  reading_ends r stopped = elim (Bool-cases r.auth.reading) [
    | inl runs ↦ (
      record r { auth = record r.auth { reading = false } },
      next here
          (auth (reads read_failed false r.server runs (λ h. refl) (ground (arith, stopped)))),
      stopped,
      refl,
      refl,
    )
    | inr over ↦ (r, here, stopped, refl, over)
  ]

  cleaning_ends :
      (r : Runtime)
      → r.auth.stopped ≡ true
      → (t : Runtime) × Reach w net r t
        × (t.auth.closed ≡ r.auth.closed)
        × (t.auth.reading ≡ r.auth.reading)
        × (t.auth.cleaning ≡ false)
  cleaning_ends r stopped = elim (Bool-cases r.auth.cleaning) [
    | inl runs ↦ (
      record r { server = clean r.server 0; auth = record r.auth { cleaning = false } },
      next here (auth (cleans 0 false runs (λ h. stopped))),
      refl,
      refl,
      refl,
    )
    | inr over ↦ (r, here, refl, refl, over)
  ]

  -- The goroutines of waitForAuth can return from every state in which `stop` is closed.
  pub auth_finishes :
      (r : Runtime)
      → r.auth.stopped ≡ true
      → (t : Runtime) × Reach w net r t × (auth_done t.auth ≡ true)
  unfolding auth_done
  auth_finishes r stopped =
      let closed = record r { auth = record r.auth { closed = true } } in
      let (t, to_t, t_stopped, t_closed, t_reading) = reading_ends closed stopped in
      let (u, to_u, u_closed, u_reading, u_cleaning) = cleaning_ends t t_stopped in
      (
        u,
        Reach-trans (Reach-trans (next here (auth (closes_socket stopped))) to_t) to_u,
        ground (arith, t_closed, t_reading, u_closed, u_reading, u_cleaning),
      )

  module _ (i : ℕ) (f : ForwardConfig) where
    accepting_ends :
        (r : Runtime) (p : PortLoops) (l : ClientList)
        → r.ports i ≡ some p
        → get_elem? r.server.config.forward_configs i ≡ some f
        → get_elem? r.server.clients i ≡ some l
        → p.stopped ≡ true
        → (t : Runtime) × (q : PortLoops) × Reach w net r t
          × (t.ports i ≡ some q)
          × (get_elem? t.server.config.forward_configs i ≡ some f)
          × (q.stopped ≡ true)
          × (q.closed ≡ p.closed)
          × (q.accepting ≡ false)
    unfolding accept_round
    accepting_ends r p l at found held stopped = elim (Bool-cases p.accepting) [
      | inl runs ↦ (
        set_port i (record p { accepting = false })
            (record r { server = record r.server { clients = set_clients i l r.server.clients } }),
        record p { accepting = false },
        next here (
            port i f p at found (
              accepts accept_failed l l false none runs (λ h. refl) held
                (ground (arith, stopped)))),
        ground (arith, eqb_refl i),
        found,
        stopped,
        refl,
        refl,
      )
      | inr over ↦ (r, p, here, at, found, stopped, refl, over)
    ]

    refreshing_ends :
        (r : Runtime) (p : PortLoops)
        → r.ports i ≡ some p
        → get_elem? r.server.config.forward_configs i ≡ some f
        → p.stopped ≡ true
        → (t : Runtime) × (q : PortLoops) × Reach w net r t
          × (t.ports i ≡ some q)
          × (q.closed ≡ p.closed)
          × (q.accepting ≡ p.accepting)
          × (q.refreshing ≡ false)
    refreshing_ends r p at found stopped = elim (Bool-cases p.refreshing) [
      | inl runs ↦ (
        set_port i (record p { refreshing = false }) (record r { server = refresh r.server i 0 }),
        record p { refreshing = false },
        next here (port i f p at found (refreshes 0 false runs (λ h. stopped))),
        ground (arith, eqb_refl i),
        refl,
        refl,
        refl,
      )
      | inr over ↦ (r, p, here, at, refl, refl, over)
    ]

    -- The goroutines of a forward port can return from every state in which it is stopped.
    pub port_finishes :
        (r : Runtime) (p : PortLoops) (l : ClientList)
        → r.ports i ≡ some p
        → get_elem? r.server.config.forward_configs i ≡ some f
        → get_elem? r.server.clients i ≡ some l
        → p.stopped ≡ true
        → (t : Runtime) × (q : PortLoops) × Reach w net r t
          × (t.ports i ≡ some q)
          × (port_done q ≡ true)
    unfolding port_done
    port_finishes r p l at found held stopped =
        let closed = set_port i (record p { closed = true }) r in
        let (t, q, to_t, t_at, t_found, q_stopped, q_closed, q_accepting) =
          accepting_ends closed (record p { closed = true }) l (ground (arith, eqb_refl i)) found
            held stopped in
        let (u, o, to_u, u_at, o_closed, o_accepting, o_refreshing) =
          refreshing_ends t q t_at t_found q_stopped in
        (
          u,
          o,
          Reach-trans (Reach-trans (next here (port i f p at found (closes_listener stopped))) to_t)
              to_u,
          u_at,
          ground (arith, q_closed, q_accepting, o_closed, o_accepting, o_refreshing),
        )
