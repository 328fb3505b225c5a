-- ===== src/Server/System/Gate.antt =====
-- Who gets through: a connection that the accept loop of `startForwardWithStop` takes.
use connauth.Common.{
  ℕ, zero, suc, ◌≡◌, ◌⊎◌, inl, inr, refl, ◌∙◌, String, true, false, ◌&&◌, some, List, [], ◌∷◌,
  arith, eq_iff, string_eq, ◌==◌, lookup, Distinct, ok, Bool-cases, ltb, get_elem?,
}
use connauth.World.{World}
use connauth.Server.Config.{Config, ForwardConfig}
use connauth.Server.Config.Check.{config_check_valid}
use connauth.Server.Access.{is_static_ip_allowed, is_ip_denied}
use connauth.Server.Clients.{
  AuthorizedClientKey, AuthorizedClientState, ClientList, client_eq, client_eqb_iff, is_ip_authed,
}
use connauth.Server.Clients.Lists.{any_live, is_ip_authed_lem}
use connauth.Server.Clients.Grant.Everywhere.{Served, entry_at}
use connauth.Server.Handler.{Server}
use connauth.Server.System.{start, Reach}
use connauth.Server.System.Safe.{IsServing, Reach-IsServing}
use connauth.Server.System.Admission.{Admission, entry-Admission}

-- A client of the address, with its entry, which has not expired.
record Holder (ip : String) (now : ℕ) (l : ClientList) : Type 0 where
  pub client_id : String
  pub state : AuthorizedClientState
  pub entry : lookup (record { ip = ip; client_id = client_id }) l ≡ some state
  pub lasting : ltb now state.expires_at ≡ true

any_live-Holder :
    (ip : String) (now : ℕ) (l : ClientList)
    → Distinct l
    → any_live ip now l ≡ true
    → Holder ip now l
unfolding lookup
any_live-Holder ip now [] d h = absurd (ground (arith, h))
any_live-Holder ip now ((k, st) ∷ rest) d h =
    elim (Bool-cases (k.ip == ip && ltb now st.expires_at)) [
      | inl hit ↦ record {
        client_id = k.client_id;
        state = st;
        entry = ground (
          arith,
          hit,
          eq_iff k.ip ip,
          client_eqb_iff k (record { ip = ip; client_id = k.client_id }),
        );
        lasting = ground (arith, hit);
      }
      | inr miss ↦
          let r = any_live-Holder ip now rest d.1 (ground (arith, h, miss)) in
          record {
            client_id = r.client_id;
            state = r.state;
            entry = ground (
              arith,
              r.entry,
              d.0,
              client_eqb_iff k (record { ip = ip; client_id = r.client_id }),
            );
            lasting = r.lasting;
          }
    ]

pub get_elem-entry_at :
    (key : AuthorizedClientKey) (i : ℕ) (ls : List ClientList) (l : ClientList)
    → get_elem? ls i ≡ some l
    → entry_at i key ls ≡ lookup key l
get_elem-entry_at key i [] l h = cc h
get_elem-entry_at key zero (m ∷ ls) l h = let same : m ≡ l = cc h in rw same refl
get_elem-entry_at key (suc i) (m ∷ ls) l h = get_elem-entry_at key i ls l h

get_elem-Distinct :
    (fs : List ForwardConfig) (i : ℕ) (ls : List ClientList) (l : ClientList)
    → Served fs ls
    → get_elem? ls i ≡ some l
    → Distinct l
get_elem-Distinct [] i [] l s h = cc h
get_elem-Distinct [] i (m ∷ ls) l s h = absurd s
get_elem-Distinct (f ∷ fs) i [] l s h = absurd s
get_elem-Distinct (f ∷ fs) zero (m ∷ ls) l s h = let same : m ≡ l = cc h in rw (← same) s.1.distinct
get_elem-Distinct (f ∷ fs) (suc i) (m ∷ ls) l s h = get_elem-Distinct fs i ls l s.2 h

-- Why isIPAuthed lets an address in at the port of that position, in this state.
abbrev pub Cause : World → Config → ℕ → ForwardConfig → String → Server → Type 0
Cause w c i f ip s =
    (is_static_ip_allowed w.lib c f ip ≡ true)
    ⊎ ((client_id : String) × (state : AuthorizedClientState) × (entry_at i
            (record { ip = ip; client_id = client_id }) s.clients
          ≡ some state))

pub is_ip_authed-Cause :
    (w : World) (c : Config) (i : ℕ) (f : ForwardConfig) (l : ClientList) (ip : String) (now : ℕ)
    (s : Server)
    → IsServing c s
    → get_elem? s.clients i ≡ some l
    → (is_ip_authed w.lib c f l ip now).0 ≡ true
    → (is_ip_denied w.lib c ip ≡ false) × Cause w c i f ip s
is_ip_authed-Cause w c i f l ip now s v held entered =
    let facts = is_ip_authed_lem w.lib c f l ip now in
    (
      ground (arith, facts, entered),
      elim (Bool-cases (is_static_ip_allowed w.lib c f ip)) [
        | inl static ↦ inl static
        | inr dynamic ↦
            let h =
              any_live-Holder ip now l
                (get_elem-Distinct s.config.forward_configs i s.clients l v.good.served held)
                (ground (arith, facts, entered, dynamic)) in
            let key : AuthorizedClientKey = record { ip = ip; client_id = h.client_id } in
            inr (h.client_id, h.state, get_elem-entry_at key i s.clients l held ∙ h.entry)
      ],
    )

module _ (w : World) (c raw : Config) (checked_at : ℕ)
    (passed : config_check_valid w.lib raw checked_at ≡ ok c) where
  -- In every state of a server that was started with a configuration that passed the check: a
  -- connection that isIPAuthed lets in at a forward port comes from an address that no deny rule
  -- matches, and that an allow rule matches, or from which a client was let in at that port earlier
  -- in this very run, by an authorised response to a pending challenge in a packet from that
  -- address.
  pub is_ip_authed-Admission :
      {s : Server} (i : ℕ) (f : ForwardConfig) (l : ClientList) (ip : String) (now : ℕ)
      (run : Reach w (start c) s)
      → get_elem? c.forward_configs i ≡ some f
      → get_elem? s.clients i ≡ some l
      → (is_ip_authed w.lib c f l ip now).0 ≡ true
      → (is_ip_denied w.lib c ip ≡ false)
        × ((is_static_ip_allowed w.lib c f ip ≡ true)
            ⊎ ((client_id : String) × Admission w c
                  (record { ip = ip; client_id = client_id })
                  i
                  s
                  run))
  is_ip_authed-Admission {s} i f l ip now run at held entered =
      let (not_denied, cause) =
        is_ip_authed-Cause w c i f l ip now s (Reach-IsServing w c raw checked_at passed run) held
          entered in
      (
        not_denied,
        elim cause [
          | inl static ↦ inl static
          | inr (client_id, state, there) ↦ inr (
            client_id,
            entry-Admission w c (record { ip = ip; client_id = client_id }) i raw checked_at passed
                state run there,
          )
        ],
      )
