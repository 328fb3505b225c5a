-- ===== src/Handshake/Connect.antt =====
-- After the handshake: the forward port takes the client's connections until its entry expires.
use connauth.Common.{
  ℕ, ◌+◌, ◌*◌, ◌<◌, ◌≡◌, sym, ◌∙◌, true, false, Option, some, [], ◌∷◌, arith, eq_iff, string_eq,
  lookup, get_elem?,
}
use connauth.Library.{Library}
use connauth.Protocol.{second}
use connauth.Server.Config.{Config, ForwardConfig}
use connauth.Server.Access.{is_ip_denied}
use connauth.Server.Clients.{
  AuthorizedClientKey, AuthorizedClientState, ClientList, client_eq, client_eqb_iff, is_ip_authed,
}
use connauth.Server.Clients.Lists.{any_live, is_ip_authed_lem}
use connauth.Server.Handler.{Handled}
use connauth.Server.System.Gate.{get_elem-entry_at}
use connauth.Handshake.Success.{LetIn}

lookup-any_live :
    (key : AuthorizedClientKey) (st : AuthorizedClientState) (now : ℕ) (l : ClientList)
    → lookup key l ≡ some st
    → now < st.expires_at
    → any_live key.ip now l ≡ true
unfolding lookup
lookup-any_live key st now [] h e = cc h
lookup-any_live key st now ((k, s) ∷ rest) h e =
    ground (arith, h, e, client_eqb_iff k key, eq_iff k.ip key.ip, lookup-any_live key st now rest)

module _ {Byte : Type 0} (lib : Library) (c : Config) (i : ℕ) (key : AuthorizedClientKey)
    (granted_at : ℕ) (result : Option (Handled Byte)) (r : LetIn c i key granted_at result) where
  -- On the maps that a response which let a client in has left, isIPAuthed takes a connection from
  -- the client's address at that forward port until the entry expires, unless a deny rule matches
  -- the address.
  pub LetIn-is_ip_authed :
      (f : ForwardConfig) (l : ClientList) (now : ℕ)
      → get_elem? r.handled.server.clients i ≡ some l
      → is_ip_denied lib c key.ip ≡ false
      → now < granted_at + r.seconds * second
      → (is_ip_authed lib c f l key.ip now).0 ≡ true
  LetIn-is_ip_authed f l now held free early = ground (
    arith,
    free,
    is_ip_authed_lem lib c f l key.ip now,
    lookup-any_live key (record { expires_at = granted_at + r.seconds * second }) now l
        (sym (get_elem-entry_at key i r.handled.server.clients l held) ∙ r.entry) early,
  )
