-- ===== src/Server/Runtime/Guarded.antt =====
-- A forward port that serves keeps its limits, and holds only connections that its run let in.
use connauth.Common.{ℕ, ◌<◌, ◌≤◌, ◌≡◌, String, some, arith, ok, get_elem?}
use connauth.World.{World}
use connauth.Limiter.Refinement.{count, length}
use connauth.Limiter.Schedule.{Reach-IsBounded}
use connauth.Server.Config.{Config, ForwardConfig}
use connauth.Server.Config.Check.{config_check_valid}
use connauth.Server.Loops.{PortLoops, Sockets}
use connauth.Server.Runtime.{Runtime}
use connauth.Server.Runtime.Refines.{held_by}
use connauth.Server.Runtime.Reached.{Reach-IsRunning}
use connauth.Server.Runtime.History.{Run, CameIn}
use connauth.Server.Runtime.Recorded.{Reach-IsRecorded}

-- Within its limits, and with the connections that this run let in.
pub record IsGuarded (w : World) (c : Config) (net : Sockets) (i : ℕ) (p : PortLoops) (r : Runtime)
    (run : Run w c net r) : Type 0 where
  pub f : ForwardConfig
  pub at : get_elem? c.forward_configs i ≡ some f
  pub global_limit :
      (limit : ℕ) → f.max_conn_global ≡ some limit → 0 < limit → length p.connections.active ≤ limit
  pub ip_limit :
      (limit : ℕ) (ip : String)
      → f.max_conn_per_ip ≡ some limit
      → 0 < limit
      → count ip p.connections.active ≤ limit
  pub came_in : (ip : String) → 0 < held_by ip p → CameIn w c net i ip r run

module _ (w : World) (c raw : Config) (net : Sockets) (checked_at : ℕ)
    (passed : config_check_valid w.lib raw checked_at ≡ ok c) where
  -- In every state of a server that was started with a configuration that passed the check,
  -- whatever the order in which its loops, connections and stop channels take their steps: at a
  -- forward port no more connections hold a slot than its limits allow, over all addresses and for
  -- each, where a limit is not 0; and every address with a connection between isIPAuthed and its
  -- end had one accepted at that port in this very run, is matched by no deny rule, and is matched
  -- by an allow rule or, before that accept, had a client let in at that port by an authorised
  -- response in a datagram that this run read.
  pub Reach-IsGuarded :
      {r : Runtime} (i : ℕ) (p : PortLoops) (run : Run w c net r)
      → r.ports i ≡ some p
      → IsGuarded w c net i p r run
  Reach-IsGuarded i p run at =
      let q = (Reach-IsRunning w c raw net checked_at passed run).ports i p at in
      let b = Reach-IsBounded q.max_global q.max_per_ip q.schedule in
      record {
        f = q.f;
        at = q.at;
        global_limit = λ limit e h.
            let same : q.max_global ≡ limit = ground (arith, q.global_limit, e) in
            ground (arith, b.global_limit, same, h);
        ip_limit = λ limit ip e h.
            let same : q.max_per_ip ≡ limit = ground (arith, q.ip_limit, e) in
            ground (arith, b.ip_limit ip, same, h);
        came_in = λ ip h. (Reach-IsRecorded w c raw net checked_at passed run).held i p ip at h;
      }
