-- ===== src/Server/Forward/Accept.antt =====
-- A connection is forwarded exactly if it may be, and only a forwarded one keeps a slot.
use connauth.Common.{
  ℕ, ◌≡◌, ◌≢◌, refl, String, Bool, true, false, ◌&&◌, Option, none, some, ◌∷◌, arith, eq_iff,
  string_eq, if◌then◌else◌, Bool-cases, Option-cases, inl, inr,
}
use connauth.Library.{Library}
use connauth.Limiter.{ConnectionLimiter, acquire, release}
use connauth.Limiter.Refinement.{Holders, Refines, has_room, drop_one, acquire_lem, release-Refines}
use connauth.Server.Config.{Config, ForwardConfig}
use connauth.Server.Config.Check.Sound.{IsReady}
use connauth.Server.Clients.{is_ip_authed}
use connauth.Server.Forward.{
  Port, Fate, forwarded, over_limit, closed_after, handle_conn, serve_conn, accept_conn,
}

abbrev pub is_forwarded : Fate → Bool
is_forwarded (forwarded deadline) = true
is_forwarded _ = false

-- The slots that are held afterwards.
abbrev pub held_after : Fate → String → Holders → Holders
held_after fate ip h = if is_forwarded fate then ip ∷ h else h

module _ (l : ConnectionLimiter) (h : Holders) (ip : String) (r : Refines l h) where
  drop_one_head : drop_one ip (ip ∷ h) ≡ h
  drop_one_head = ground (arith, eq_iff ip ip)

  release_taken : (acquire l ip).1 ≡ true → Refines (release (acquire l ip).0 ip) h
  release_taken taken =
      let back =
        release-Refines (acquire l ip).0 (ip ∷ h) ip ((acquire_lem l h ip r).1 taken)
          (ground (arith, eq_iff ip ip)) in
      rw (← drop_one_head) back

  -- What a served connection comes to.
  pub record Served (dialed : Bool) (o : Option (Fate × ConnectionLimiter)) : Type 0 where
    pub fate : Fate
    pub limiter : ConnectionLimiter
    pub returned : o ≡ some (fate, limiter)
    pub decided : is_forwarded fate ≡ (has_room l h ip && dialed)
    pub refines : Refines limiter (held_after fate ip h)

  Served-taken :
      (dialed : Bool) (now idle : ℕ)
      → (acquire l ip).1 ≡ true
      → Served dialed (
          some (
            handle_conn dialed now idle,
            if dialed then (acquire l ip).0 else release (acquire l ip).0 ip,
          ))
  unfolding handle_conn
  Served-taken true now idle taken = record {
    fate = handle_conn true now idle;
    limiter = (acquire l ip).0;
    returned = refl;
    decided = ground (arith, (acquire_lem l h ip r).0, taken);
    refines = (acquire_lem l h ip r).1 taken;
  }
  Served-taken false now idle taken = record {
    fate = handle_conn false now idle;
    limiter = release (acquire l ip).0 ip;
    returned = refl;
    decided = ground (arith, (acquire_lem l h ip r).0, taken);
    refines = release_taken taken;
  }

  serve_conn-Served :
      (f : ForwardConfig) (dialed : Bool) (now : ℕ)
      → f.dial_timeout_ms ≢ none
      → f.idle_timeout_ms ≢ none
      → Served dialed (serve_conn f l ip dialed now)
  unfolding serve_conn
  serve_conn-Served f dialed now dial idle = elim (Bool-cases (acquire l ip).1) [
    | inl taken ↦ elim (Option-cases f.dial_timeout_ms) [
      | inl e ↦ absurd (dial e)
      | inr (d, given) ↦ elim (Option-cases f.idle_timeout_ms) [
        | inl e ↦ absurd (idle e)
        | inr (i, given') ↦
            let same : some (
              handle_conn dialed now i,
              if dialed then (acquire l ip).0 else release (acquire l ip).0 ip,
            )
                ≡ serve_conn f l ip dialed now =
              ground (arith, taken, given, given') in
            rw (← same) (Served-taken dialed now i taken)
      ]
    ]
    | inr full ↦
        let same : some (over_limit, (acquire l ip).0) ≡ serve_conn f l ip dialed now =
          ground (arith, full) in
        rw (← same) (record {
          fate = over_limit;
          limiter = (acquire l ip).0;
          returned = refl;
          decided = ground (arith, (acquire_lem l h ip r).0, full);
          refines = rw ((acquire_lem l h ip r).2 full) r;
        })
  ]

module _ (lib : Library) (c : Config) (f : ForwardConfig) (port : Port) (ip : String)
    (now : ℕ) where
  -- What a connection comes to.
  pub record Accepted (h : Holders) (dialed : Bool) (o : Option (Fate × Port)) : Type 0 where
    pub fate : Fate
    pub port' : Port
    pub returned : o ≡ some (fate, port')
    pub decided :
        is_forwarded fate
        ≡ ((is_ip_authed lib c f port.clients ip now).0 && (has_room port.limiter h ip && dialed))
    pub refines : Refines port'.limiter (held_after fate ip h)
    pub clients : port'.clients ≡ (is_ip_authed lib c f port.clients ip now).1

  -- With the settings of a checked configuration, and the limiter standing for the slots that are
  -- held, a connection is dealt with without a panic; it is forwarded exactly if isIPAuthed lets
  -- its address in, both limits have room and the dial succeeds; and it holds a slot afterwards
  -- exactly if it is forwarded.
  pub accept_conn-Accepted :
      (raw : Config) (h : Holders) (dialed : Bool) (dialed_at : ℕ)
      → Refines port.limiter h
      → IsReady lib raw f
      → Accepted h dialed (accept_conn lib c f port ip now dialed dialed_at)
  unfolding accept_conn
  accept_conn-Accepted raw h dialed dialed_at r ready =
      elim (Bool-cases (is_ip_authed lib c f port.clients ip now).0) [
        | inl authed ↦
            let s =
              serve_conn-Served port.limiter h ip r f dialed dialed_at ready.has_dial_timeout
                ready.has_idle_timeout in
            let after : Port = record {
              clients = (is_ip_authed lib c f port.clients ip now).1;
              limiter = s.limiter;
            } in
            record {
              fate = s.fate;
              port' = after;
              returned = ground (arith, authed, s.returned);
              decided = ground (arith, authed, s.decided);
              refines = s.refines;
              clients = refl;
            }
        | inr stranger ↦ elim (Option-cases f.drop_delay_time) [
          | inl e ↦ absurd (ready.has_drop_delay e)
          | inr (delay, given) ↦
              let after : Port = record {
                clients = (is_ip_authed lib c f port.clients ip now).1;
                limiter = port.limiter;
              } in
              record {
                fate = closed_after delay;
                port' = after;
                returned = ground (arith, stranger, given);
                decided = ground (arith, stranger);
                refines = r;
                clients = refl;
              }
        ]
      ]
