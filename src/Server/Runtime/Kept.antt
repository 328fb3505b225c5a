-- ===== src/Server/Runtime/Kept.antt =====
-- What single steps of a running server leave: the entries of the client maps, and what a port holds.
use connauth.Common.{
  ℕ, ◌+◌, ◌<◌, ◌≡◌, ◌⊎◌, inl, inr, String, Bool, false, some, List, ◌∷◌, arith, eq_iff, ◌&&◌,
  nat_eq, nat_eqb_iff, ◌==◌, string_eq, if◌then◌else◌, ok, Bool-cases, Option-cases, take,
}
use connauth.World.{World}
use connauth.Protocol.Crypto.{Random}
use connauth.Limiter.Refinement.{count, drop_one, count-drop_one}
use connauth.Limiter.Schedule.{begin, finish}
use connauth.Server.Config.{Config, ForwardConfig}
use connauth.Server.Clients.{AuthorizedClientKey, AuthorizedClientState, client_eq}
use connauth.Server.Clients.Grant.Everywhere.{entry_at}
use connauth.Server.Handler.{Server, Clock, Handled, handle_auth_packet}
use connauth.Server.System.Safe.{IsServing}
use connauth.Server.System.Admission.{LetInBy, packet-LetInBy}
use connauth.Server.Loops.{
  PortLoops, Sockets, received, read_round, is_nil, start_forward, fresh_port,
}
use connauth.Server.Runtime.{Runtime, Step, next}
use connauth.Server.Runtime.Refines.{held_by}
use connauth.Server.Runtime.History.{Run, Granted, by_packet, CameIn, by_accept, IsRecorded}
use connauth.Server.Runtime.History

pub begin-held :
    (p : PortLoops) (ip j : String)
    → 0 < count ip p.waiting
    → 0 < count j (drop_one ip p.waiting) + count j (begin p.connections ip).active
    → 0 < held_by j p
unfolding begin
begin-held p ip j waits h = ground (arith, h, count-drop_one ip j p.waiting waits, eq_iff ip j)

pub finish-held :
    (p : PortLoops) (ip j : String)
    → 0 < count ip p.connections.active
    → 0 < count j p.waiting + count j (finish p.connections ip).active
    → 0 < held_by j p
unfolding finish
finish-held p ip j held h = ground (arith, h, count-drop_one ip j p.connections.active held)

pub start_forward-idle :
    (net : Sockets) (f : ForwardConfig) (p : PortLoops) (ip : String)
    → start_forward net f ≡ some (ok p)
    → held_by ip p ≡ 0
unfolding start_forward
start_forward-idle net f p ip h = elim (Bool-cases (net.listens_tcp f.bind_port)) [
  | inr refused ↦ absurd (ground (arith, h, refused))
  | inl bound ↦ elim (Option-cases f.max_conn_global) [
    | inl e ↦ absurd (ground (arith, h, bound, e))
    | inr (g, global) ↦ elim (Option-cases f.max_conn_per_ip) [
      | inl e ↦ absurd (ground (arith, h, bound, global, e))
      | inr (k, per_ip) ↦
          let same : fresh_port g k ≡ p = ground (arith, h, bound, global, per_ip) in
          rw (← same) (omega arith)
    ]
  ]
]

-- A round of the read loop keeps an entry's origin: it was there before, or the round's packet is it.
pub read_round-entry :
    (w : World) (c : Config) (stopped again : Bool) (clock : Clock)
    (random_nonce random_seal : Random w.crypto) (peer : String) (datagram : List w.crypto.Byte)
    (s t : Server) (key : AuthorizedClientKey) (i : ℕ) (st : AuthorizedClientState)
    → IsServing c s
    → read_round w stopped (received clock random_nonce random_seal peer datagram) s
      ≡ some (again, t)
    → entry_at i key t.clients ≡ some st
    → (entry_at i key s.clients ≡ some st)
      ⊎ ((h : Handled w.crypto.Byte) × (handle_auth_packet w s clock random_nonce random_seal peer
              (take 4096 datagram)
            ≡ some h)
          × LetInBy w c key i s clock peer (take 4096 datagram) h)
unfolding read_round
read_round-entry w c stopped again clock rn rs peer datagram s t key i st v read there =
    elim (Bool-cases (is_nil (take 4096 datagram))) [
      | inl empty ↦ let same : s ≡ t = ground (arith, read, empty) in inl (rw same there)
      | inr bytes ↦
          elim (Option-cases (handle_auth_packet w s clock rn rs peer (take 4096 datagram))) [
            | inl e ↦ absurd (ground (arith, read, bytes, e))
            | inr (h, e) ↦
                let same : h.server ≡ t = ground (arith, read, bytes, e) in
                elim (packet-LetInBy w c key i clock rn rs peer (take 4096 datagram) h st v e
                  (rw same there)) [ inl old ↦ inl old | inr a ↦ inr (h, e, a) ]
          ]
    ]

module _ (w : World) (c : Config) (net : Sockets) where
  -- A step that changes the ports only where nothing new is held.
  pub kept :
      {r t : Runtime} (run : Run w c net r) (st : Step w net r t)
      → ((key : AuthorizedClientKey) (i : ℕ) (state : AuthorizedClientState)
          → entry_at i key t.server.clients ≡ some state
          → entry_at i key r.server.clients ≡ some state)
      → ((i : ℕ) (p : PortLoops) (ip : String)
          → t.ports i ≡ some p
          → 0 < held_by ip p
          → (q : PortLoops) × (r.ports i ≡ some q) × (0 < held_by ip q))
      → IsRecorded w c net r run
      → IsRecorded w c net t (next run st)
  kept run st entries held v = record {
    entries = λ key i state there.
        History.Granted.earlier st (v.entries key i state (entries key i state there));
    held = λ i p ip at h.
        let (q, at', h') = held i p ip at h in History.CameIn.earlier st (v.held i q ip at' h');
  }

  -- Where only the loops of one port changed, and it holds nothing that it did not hold before.
  pub same_held :
      (r : Runtime) (i : ℕ) (p p' : PortLoops)
      → r.ports i ≡ some p
      → ((ip : String) → 0 < held_by ip p' → 0 < held_by ip p)
      → (j : ℕ) (q : PortLoops) (ip : String) → (if j == i then some p' else r.ports j) ≡ some q
      → 0 < held_by ip q
      → (q' : PortLoops) × (r.ports j ≡ some q') × (0 < held_by ip q')
  same_held r i p p' at old j q ip h held = elim (Bool-cases (j == i)) [
    | inl same ↦
        let e : p' ≡ q = ground (arith, h, same) in
        (p, rw ((nat_eqb_iff j i).0 same) at, old ip (rw e held))
    | inr other ↦ (q, ground (arith, h, other), held)
  ]

held_by-path : (p q : PortLoops) (ip : String) → p ≡ q → 0 < held_by ip q → 0 < held_by ip p
held_by-path p q ip e h = rw e h

-- What a port holds besides an address that was just let in, it held before.
pub held_before :
    (r : Runtime) (i : ℕ) (p : PortLoops) (ip : String) (p' : PortLoops)
    → r.ports i ≡ some p
    → (p'.waiting ≡ p.waiting) × (p'.connections ≡ p.connections)
    → (j : ℕ) (q : PortLoops) (ip' : String) → (j == i && ip == ip') ≡ false
    → (if j == i then some (record p' { waiting = ip ∷ p'.waiting }) else r.ports j) ≡ some q
    → 0 < held_by ip' q
    → (q' : PortLoops) × (r.ports j ≡ some q') × (0 < held_by ip' q')
held_before r i p ip p' at kept' j q ip' other h held = elim (Bool-cases (j == i)) [
  | inl same ↦
      let e : record p' { waiting = ip ∷ p'.waiting } ≡ q = ground (arith, h, same) in
      let was : 0 < held_by ip' (record p' { waiting = ip ∷ p'.waiting }) =
        held_by-path (record p' { waiting = ip ∷ p'.waiting }) q ip' e held in
      (
        p,
        rw ((nat_eqb_iff j i).0 same) at,
        rw (← kept'.0, ← kept'.1) (ground (arith, was, other, same)),
      )
  | inr apart ↦ (q, ground (arith, h, apart), held)
]
