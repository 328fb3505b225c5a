-- ===== src/Server/Startup/Serves.antt =====
-- A server that comes to run has a checked configuration, and starts all of its ports that it can.
use connauth.Common.{
  ℕ, ◌≡◌, ◌≢◌, inl, inr, refl, String, true, false, Option, none, some, List, [], ◌∷◌, All, arith,
  Result, ok, err, Bool-cases, Option-cases, Result-cases,
}
use connauth.Library.{Library}
use connauth.Logger.{AliyunSlsConfig, apply_sls_env, new_sls_hook}
use connauth.Logger.Levels.{Logging, level_of, timestamped}
use connauth.Logger.Start.{IsComplete, new_sls_hook-IsComplete}
use connauth.Service.{ServiceError, Effect}
use connauth.Entry.{Surroundings, Host, Flags, ran, main}
use connauth.Entry.Exits.{Reads, main-Ran}
use connauth.Server.Config.{Config, ForwardConfig}
use connauth.Server.Config.Check.{config_check_valid, read_config}
use connauth.Server.Config.Check.Sound.{IsReady, IsChecked, config_check_valid-IsChecked}
use connauth.Server.Logging.{sls_settings, set_level, add_hook, init_logger}
use connauth.Server.Loops.{
  PortLoops, Sockets, ListenError, listen_failed, fresh_port, start_forward, wait_for_auth,
}
use connauth.Server.Startup.{server_program, Serving, start_forwards, serve}

-- A port with these limits is bound, or its number could not be.
pub data Begun (net : Sockets) (f : ForwardConfig) : Result ListenError PortLoops → Type 0 where
  bound :
      (max_global max_per_ip : ℕ)
      → net.listens_tcp f.bind_port ≡ true
      → f.max_conn_global ≡ some max_global
      → f.max_conn_per_ip ≡ some max_per_ip
      → Begun net f (ok (fresh_port max_global max_per_ip))
  refused : net.listens_tcp f.bind_port ≡ false → Begun net f (err (listen_failed f.bind_port))

abbrev pub AllBegun : Sockets → List ForwardConfig → List (Result ListenError PortLoops) → Type 0
AllBegun net [] [] = Unit
AllBegun net [] (r ∷ rs) = ⊥
AllBegun net (f ∷ fs) [] = ⊥
AllBegun net (f ∷ fs) (r ∷ rs) = Begun net f r × AllBegun net fs rs

module _ (net : Sockets) where
  start_forward-Begun :
      (lib : Library) (c : Config) (f : ForwardConfig)
      → IsReady lib c f
      → (r : Result ListenError PortLoops) × (start_forward net f ≡ some r) × Begun net f r
  unfolding start_forward
  start_forward-Begun lib c f ready = elim (Bool-cases (net.listens_tcp f.bind_port)) [
    | inr taken ↦ (err (listen_failed f.bind_port), ground (arith, taken), refused taken)
    | inl can ↦ elim (Option-cases f.max_conn_global) [
      | inl e ↦ absurd (ready.has_conn_global e)
      | inr (g, global) ↦ elim (Option-cases f.max_conn_per_ip) [
        | inl e ↦ absurd (ready.has_conn_per_ip e)
        | inr (k, per_ip) ↦
            (ok (fresh_port g k), ground (arith, can, global, per_ip), bound g k can global per_ip)
      ]
    ]
  ]

  start_forwards-AllBegun :
      (lib : Library) (c : Config) (fs : List ForwardConfig)
      → All (IsReady lib c) fs
      → (rs : List (Result ListenError PortLoops)) × (start_forwards net fs ≡ some rs)
        × AllBegun net fs rs
  unfolding start_forwards
  start_forwards-AllBegun lib c [] a = ([], refl, tt)
  start_forwards-AllBegun lib c (f ∷ fs) a =
      let (r, e, b) = start_forward-Begun lib c f a.0 in
      let (rs, e', bs) = start_forwards-AllBegun lib c fs a.1 in
      (r ∷ rs, ground (arith, e, e'), (b, bs))

module _ (lib : Library) (around : Surroundings Config) (now : ℕ) where
  -- The configuration is what CheckValid made of the content of this file.
  pub record IsRead (path : String) (c : Config) : Type 0 where
    pub content : around.Content
    pub found : around.read_file path ≡ some content
    pub raw : Config
    pub decoded : around.unmarshal content ≡ some raw
    pub passed : config_check_valid lib raw now ≡ ok c
    pub checked : IsChecked lib now raw c

  read_config-IsRead :
      (path : String) (c : Config)
      → read_config lib (around.read_file path) around.unmarshal now ≡ ok c
      → IsRead path c
  unfolding read_config
  read_config-IsRead path c h = elim (Option-cases (around.read_file path)) [
    | inl e ↦ absurd (ground (arith, h, e))
    | inr (content, e) ↦ elim (Option-cases (around.unmarshal content)) [
      | inl e' ↦ absurd (ground (arith, h, e, e'))
      | inr (raw, e') ↦
          let passed : config_check_valid lib raw now ≡ ok c = ground (arith, h, e, e') in
          record {
            content = content;
            found = e;
            raw = raw;
            decoded = e';
            passed = passed;
            checked = config_check_valid-IsChecked lib raw c now passed;
          }
    ]
  ]

  -- The log service's hook is added with complete settings exactly if it is enabled.
  pub data IsLogged (c : Config) (before : Logging) : Logging → Type 0 where
    plain :
        c.aliyun_sls.enabled ≡ false
        → IsLogged c before
            (record before { level = level_of lib.unicode c.log_level; formatter = timestamped })
    hooked :
        (hook : AliyunSlsConfig)
        → c.aliyun_sls.enabled ≡ true
        → IsComplete around.is_uri hook
        → IsLogged c before (record {
          hooks = hook ∷ before.hooks;
          level = level_of lib.unicode c.log_level;
          formatter = timestamped;
        })

  new_sls_hook_enabled :
      (settings : AliyunSlsConfig)
      → settings.enabled ≡ true
      → new_sls_hook around.environment around.is_uri settings ≢ ok none
  unfolding new_sls_hook apply_sls_env
  new_sls_hook_enabled settings on h = absurd (ground (arith, h, on))

  init_logger-IsLogged :
      (c : Config) (logging : Logging)
      → (init_logger lib around.environment around.is_uri c logging).0 ≡ none
      → IsLogged c logging (init_logger lib around.environment around.is_uri c logging).1
  unfolding init_logger
  init_logger-IsLogged c logging h = elim (Bool-cases c.aliyun_sls.enabled) [
    | inr off ↦
        let same : set_level lib c logging
            ≡ (init_logger lib around.environment around.is_uri c logging).1 =
          ground (arith, off) in
        rw (← same) (plain off)
    | inl on ↦
        elim (Result-cases
          (new_sls_hook around.environment around.is_uri (sls_settings c.aliyun_sls))) [
            | inr (e, failed) ↦ absurd (ground (arith, h, on, failed))
            | inl (none, made) ↦ absurd (new_sls_hook_enabled (sls_settings c.aliyun_sls) on made)
            | inl (some hook, made) ↦
                let same : set_level lib c (add_hook (some hook) logging)
                    ≡ (init_logger lib around.environment around.is_uri c logging).1 =
                  ground (arith, on, made) in
                rw (← same) (
                  hooked hook on
                    (new_sls_hook-IsComplete around.environment around.is_uri
                      (sls_settings c.aliyun_sls) hook made).1)
          ]
  ]

  -- What main had to find before it ran.
  pub record Served (net : Sockets) (host : Host) (flags : Flags) (before : Logging) (c : Config)
      (after : Logging) : Type 0 where
    pub no_check : flags.check_config ≡ false
    pub path : String
    pub reads : Reads (server_program lib around now) host flags path
    pub read : IsRead path c
    pub logged : IsLogged c before after
    pub serving : Serving
    pub serves : serve lib net c ≡ some serving
    pub waits : serving.auth ≡ wait_for_auth lib net c.auth_addr
    pub begun : AllBegun net c.forward_configs serving.ports

  IsRead-Served :
      (net : Sockets) (host : Host) (flags : Flags) (before : Logging) (c : Config)
      (after : Logging) (path : String)
      → flags.check_config ≡ false
      → Reads (server_program lib around now) host flags path
      → IsRead path c
      → IsLogged c before after
      → Served net host flags before c after
  unfolding serve
  IsRead-Served net host flags before c after path off reads read logged =
      let (rs, e, begun) =
        start_forwards-AllBegun net lib read.raw c.forward_configs read.checked.forwards in
      record {
        no_check = off;
        path = path;
        reads = reads;
        read = read;
        logged = logged;
        serving = record { auth = wait_for_auth lib net c.auth_addr; ports = rs };
        serves = ground (arith, e);
        waits = refl;
        begun = begun;
      }

  -- When main of the server comes to run the service: it was not asked for a mere check; the
  -- configuration is what CheckValid made of what the file decodes to, whose path is the flag's or
  -- the default one, with all that the check promises; the logger has the level that is configured,
  -- and the log service's hook with complete settings exactly if that is enabled; and Main starts
  -- without a panic, where every forward port is bound with a limiter of its configured limits, or
  -- has the error of its own number where that cannot be bound, whatever became of the other ports
  -- and of the UDP address.
  pub main-Served :
      (net : Sockets) (host : Host) (flags : Flags) (before : Logging) (c : Config)
      (after : Logging) (done : List Effect) (result : Option ServiceError)
      → main (server_program lib around now) host flags before ≡ ran c after done result
      → Served net host flags before c after
  unfolding server_program
  main-Served net host flags before c after done result h =
      let r = main-Ran (server_program lib around now) host flags before c after done result h in
      IsRead-Served net host flags before c after r.path r.no_check r.reads
        (read_config-IsRead r.path c r.read)
        (rw (← r.logs) (init_logger-IsLogged c before r.logger))
