-- ===== src/Client/Config/Sound.antt =====
-- What a client configuration that passes `CheckValid` (cmd/authclient/config.go) is good for, and that
-- the client and the server judge texts alike.
use connauth.Common.{
  ℕ, ◌+◌, ◌≤◌, ◌≡◌, ◌≢◌, ◌↔◌, refl, String, false, Option, none, some, List, [], ◌∷◌, string_eq,
  nat_eq, arith, eq_iff, All, ok, >>=-eq-ok,
}
use connauth.Text.{Unicode, runes}
use connauth.Library.{Library}
use connauth.Server.Config.Secrets
use connauth.Client.Config.{
  AuthConfig, ServerConfig, Config, all_identifier, validate_identifier, is_weak_secret,
  validate_secret, set_default_value, auth_config_check_valid, check_auth_configs,
  server_check_valid, check_servers, config_check_valid, wrap, auth_config_error, server_error,
}

all_identifier-eq : (u : Unicode) (rs : List ℕ) → all_identifier u rs ≡ Secrets.all_identifier u rs
unfolding all_identifier Secrets.all_identifier Secrets.identifier_rune
all_identifier-eq u [] = refl
all_identifier-eq u (r ∷ rs) = ground (arith, all_identifier-eq u rs)

-- The client accepts an identifier exactly if the server does.
pub validate_identifier_agrees :
    (u : Unicode) (kind value : String)
    → (validate_identifier u kind value ≡ ok tt)
      ↔ (Secrets.validate_identifier u kind value ≡ ok tt)
unfolding validate_identifier Secrets.validate_identifier
validate_identifier_agrees u kind value = (
  λ h. ground (arith, h, all_identifier-eq u (runes value)),
  λ h. ground (arith, h, all_identifier-eq u (runes value)),
)

-- The client calls a secret weak exactly if the server does.
pub is_weak_secret-eq : (u : Unicode) (s : String) → is_weak_secret u s ≡ Secrets.is_weak_secret u s
unfolding is_weak_secret Secrets.is_weak_secret Secrets.example_secret
is_weak_secret-eq u s = refl

module _ (lib : Library) where
  -- One port's authentication: its token is strong, its port is set, and its interval is given and at
  -- least 10 seconds.
  pub record IsReady (c : AuthConfig) : Type 0 where
    pub strong : is_weak_secret lib.unicode c.token ≡ false
    pub has_token : c.token ≢ ""
    pub has_port : c.port ≢ 0
    pub seconds : ℕ
    pub given : c.interval ≡ some seconds
    pub slow : 10 ≤ seconds

  interval_of : Option ℕ → ℕ
  interval_of none = 60
  interval_of (some n) = n

  set_default_value-IsReady :
      (c : AuthConfig) → auth_config_check_valid lib c ≡ ok tt → IsReady (set_default_value c)
  unfolding set_default_value auth_config_check_valid validate_secret interval_of
  set_default_value-IsReady c h = record {
    strong = ground (arith, h);
    has_token = ground (arith, h, eq_iff c.token "");
    has_port = ground (arith, h);
    seconds = interval_of c.interval;
    given = ground arith;
    slow = ground (arith, h);
  }

  check_auth_configs-All :
      (i : ℕ) (cs cs' : List AuthConfig) → check_auth_configs lib i cs ≡ ok cs' → All IsReady cs'
  unfolding check_auth_configs
  check_auth_configs-All i [] cs' h = let e : [] ≡ cs' = cc h in rw (← e) tt
  check_auth_configs-All i (c ∷ cs) cs' h =
      let (u, first, h₁) =
        >>=-eq-ok (wrap (auth_config_error (i + 1)) (auth_config_check_valid lib c)) _ h in
      let (rest, others, h₂) = >>=-eq-ok (check_auth_configs lib (i + 1) cs) _ h₁ in
      let e : set_default_value c ∷ rest ≡ cs' = cc h₂ in
      rw (← e) (
        set_default_value-IsReady c (ground (arith, first)),
        check_auth_configs-All (i + 1) cs rest others,
      )

  pub record IsServer (s : ServerConfig) : Type 0 where
    pub addressed : s.addr ≢ ""
    pub server_named : Secrets.IsIdentifier lib.unicode s.server_id
    pub key_named : Secrets.IsIdentifier lib.unicode s.key_id
    pub strong : is_weak_secret lib.unicode s.key ≡ false
    pub ports : All IsReady s.auth_configs

  IsIdentifier-of :
      (kind value : String)
      → validate_identifier lib.unicode kind value ≡ ok tt
      → Secrets.IsIdentifier lib.unicode value
  IsIdentifier-of kind value h =
      (Secrets.validate_identifier_iff lib.unicode kind value).0
        ((validate_identifier_agrees lib.unicode kind value).0 h)

  server_check_valid-IsServer :
      (s s' : ServerConfig) → server_check_valid lib s ≡ ok s' → IsServer s'
  server_check_valid-IsServer s s' h =
      let e : record s { auth_configs = s'.auth_configs } ≡ s' =
        unfold server_check_valid in ground (arith, h) in
      rw (← e) (record {
        addressed = unfold server_check_valid in ground (arith, h, eq_iff s.addr "");
        server_named =
            IsIdentifier-of "serverid" s.server_id (unfold server_check_valid in ground (arith, h));
        key_named =
            IsIdentifier-of "keyid" s.key_id (unfold server_check_valid in ground (arith, h));
        strong = unfold server_check_valid validate_secret in ground (arith, h);
        ports =
            check_auth_configs-All 0 s.auth_configs s'.auth_configs
              (unfold server_check_valid in ground (arith, h));
      })

  check_servers-All :
      (i : ℕ) (ss ss' : List ServerConfig) → check_servers lib i ss ≡ ok ss' → All IsServer ss'
  unfolding check_servers
  check_servers-All i [] ss' h = let e : [] ≡ ss' = cc h in rw (← e) tt
  check_servers-All i (s ∷ ss) ss' h =
      let (s', first, h₁) =
        >>=-eq-ok (wrap (server_error (i + 1)) (server_check_valid lib s)) _ h in
      let (rest, others, h₂) = >>=-eq-ok (check_servers lib (i + 1) ss) _ h₁ in
      let e : s' ∷ rest ≡ ss' = cc h₂ in
      rw (← e) (
        server_check_valid-IsServer s s' (ground (arith, first)),
        check_servers-All (i + 1) ss rest others,
      )

  -- In a client configuration that passes the check, the client and every server and key have a
  -- proper name, every key and token is strong, and every port has an interval of at least 10
  -- seconds.
  pub config_check_valid_sound :
      (c d : Config)
      → config_check_valid lib c ≡ ok d
      → Secrets.IsIdentifier lib.unicode d.client_id × All IsServer d.servers
  unfolding config_check_valid
  config_check_valid_sound c d h = (
    IsIdentifier-of "clientid" d.client_id (ground (arith, h)),
    check_servers-All 0 c.servers d.servers (ground (arith, h)),
  )
