-- ===== src/Server/Runtime/Reached.antt =====
-- What holds in every state of a server that runs on a checked configuration.
use connauth.Common.{ℕ, ◌≡◌, ◌∙◌, ap, refl, true, false, some, ok, get_elem?}
use connauth.World.{World}
use connauth.Server.Config.{Config, ForwardConfig}
use connauth.Server.Config.Check.{config_check_valid}
use connauth.Server.Handler.{Server}
use connauth.Server.System
use connauth.Server.System.{refreshes}
use connauth.Server.System.Safe.{Reach-IsServing}
use connauth.Server.Loops.{PortLoops, Sockets, auth_done, port_done}
use connauth.Server.Runtime.{
  Runtime, begin_main, PortStep, Step, Reach, here, next, auth, port, starts, closes_stop,
  closes_listener, accepts, begins, finishes, refreshes,
}
use connauth.Server.Runtime.Refines.{
  start_forward-IsPort, begin-IsPort, finish-IsPort, loops-IsPort,
}
use connauth.Server.Runtime.Stops.{auth_finishes, port_finishes, Served-get_elem}
use connauth.Server.Runtime.Safe.{
  IsRunning, begin_main-IsRunning, AuthStep-IsRunning, put_port-IsRunning, accepts-IsRunning,
}

module _ (w : World) (c : Config) where
  -- How the loops of a state end: not before they are stopped, and then they can.
  pub record EndsOnStop (net : Sockets) (r : Runtime) : Type 0 where
    pub reading :
        (begin_main w.lib net c).auth.reading ≡ true
        → r.auth.reading ≡ false
        → r.auth.stopped ≡ true
    pub accepting :
        (i : ℕ) (p : PortLoops) → r.ports i ≡ some p → p.accepting ≡ false → p.stopped ≡ true
    pub auth_returns :
        r.auth.stopped ≡ true → (t : Runtime) × Reach w net r t × (auth_done t.auth ≡ true)
    pub port_returns :
        (i : ℕ) (p : PortLoops)
        → r.ports i ≡ some p
        → p.stopped ≡ true
        → (t : Runtime) × (q : PortLoops) × Reach w net r t
          × (t.ports i ≡ some q)
          × (port_done q ≡ true)

module _ (w : World) (c raw : Config) (net : Sockets) (checked_at : ℕ)
    (passed : config_check_valid w.lib raw checked_at ≡ ok c) where
  same_config : {s : Server} → System.Reach w (System.start c) s → s.config ≡ c
  same_config reached = (Reach-IsServing w c raw checked_at passed reached).same_config

  PortStep-IsRunning :
      {r : Runtime} {i : ℕ} {f : ForwardConfig} {p : PortLoops} {t : Runtime}
      → r.ports i ≡ some p
      → get_elem? c.forward_configs i ≡ some f
      → PortStep w r i f p t
      → IsRunning w c net r
      → IsRunning w c net t
  PortStep-IsRunning {r} {i = i} {p = p} at found closes_stop v =
      put_port-IsRunning w c net r r.server i (record p { stopped = true }) v.reached
        (loops-IsPort w c i p (v.ports i p at) true p.closed p.accepting p.refreshing (λ h. refl)
          (λ h. refl) (λ h. refl))
        v
  PortStep-IsRunning {r} {i = i} {p = p} at found (closes_listener stopped) v =
      let q = v.ports i p at in
      put_port-IsRunning w c net r r.server i (record p { closed = true }) v.reached
        (loops-IsPort w c i p q p.stopped true p.accepting p.refreshing (λ h. stopped) q.accepting
          q.refreshing)
        v
  PortStep-IsRunning {r} {i = i} {f} {p} at found (accepts e l after again a runs fails held h) v =
      let same = same_config v.reached in
      accepts-IsRunning w c net r i f p l v same at found held e after again a (rw (← same) h)
  PortStep-IsRunning {r} {i = i} {p = p} at found (begins ip waits) v =
      put_port-IsRunning w c net r r.server i _ v.reached
        (begin-IsPort w c i p (v.ports i p at) ip waits) v
  PortStep-IsRunning {r} {i = i} {p = p} at found (finishes ip held) v =
      put_port-IsRunning w c net r r.server i _ v.reached
        (finish-IsPort w c i p (v.ports i p at) ip held) v
  PortStep-IsRunning {r} {i = i} {p = p} at found (refreshes now again runs returns) v =
      let q = v.ports i p at in
      put_port-IsRunning w c net r _ i (record p { refreshing = again })
        (System.next v.reached (System.refreshes i now))
        (loops-IsPort w c i p q p.stopped p.closed p.accepting again q.listener q.accepting returns)
        v

  Step-IsRunning : {r t : Runtime} → Step w net r t → IsRunning w c net r → IsRunning w c net t
  Step-IsRunning (auth st) v = AuthStep-IsRunning w c net st v
  Step-IsRunning {r} (starts i f p free at bound) v =
      put_port-IsRunning w c net r r.server i p v.reached
        (start_forward-IsPort w c net i f p (rw (← same_config v.reached) at) bound) v
  Step-IsRunning (port i f p at found st) v =
      PortStep-IsRunning at (rw (← same_config v.reached) found) st v

  pub Reach-IsRunning : {r : Runtime} → Reach w net (begin_main w.lib net c) r → IsRunning w c net r
  Reach-IsRunning here = begin_main-IsRunning w c net
  Reach-IsRunning (next r st) = Step-IsRunning st (Reach-IsRunning r)

  -- In every state of a server that was started with a configuration that passed the check: a read
  -- loop that was started has not returned unless stop is closed, and the accept loop of a port has
  -- not unless that port is stopped; and where stop is closed, or a port is stopped, the loops of
  -- the authentication, or of that port, can run on to a state in which the socket is closed and
  -- all of them have returned.
  pub Reach-EndsOnStop :
      {r : Runtime} → Reach w net (begin_main w.lib net c) r → EndsOnStop w c net r
  Reach-EndsOnStop {r = s} r =
      let v = Reach-IsRunning r in
      record {
        reading = v.reading;
        accepting = λ i p at h. (v.ports i p at).accepting h;
        auth_returns = auth_finishes w net s;
        port_returns = λ i p at stopped.
            let q = v.ports i p at in
            let serving = Reach-IsServing w c raw checked_at passed v.reached in
            let found : get_elem? s.server.config.forward_configs i ≡ some q.f =
              ap (λ (d : Config). get_elem? d.forward_configs i) serving.same_config ∙ q.at in
            let (l, held) =
              Served-get_elem s.server.config.forward_configs s.server.clients i q.f
                serving.good.served found in
            port_finishes w net i q.f s p l at found held stopped;
      }
