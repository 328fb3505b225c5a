-- ===== src/Client/Startup/Runs.antt =====
-- A client that comes to run has a checked configuration, and starts the loop of every port.
use connauth.Common.{ℕ, ◌≡◌, String, false, Option, some, List, arith, ok, Option-cases, inl, inr}
use connauth.Library.{Library}
use connauth.Logger.Levels.{Logging, level_of}
use connauth.Service.{ServiceError, Effect}
use connauth.Entry.{Surroundings, Host, Flags, ran, main}
use connauth.Entry.Exits.{Reads, main-Ran}
use connauth.Client.Config.{Config, config_check_valid, read_config}
use connauth.Client.Logging.{init_logger}
use connauth.Client.Loop.{PortStart}
use connauth.Client.Loop.Starts.{AllStarted, all_ports, config_check_valid-AllStarted}
use connauth.Client.Startup.{client_program, serve}

module _ (lib : Library) (around : Surroundings Config) where
  -- The configuration is what CheckValid made of the content of this file.
  pub record IsRead (path : String) (c : Config) : Type 0 where
    pub content : around.Content
    pub found : around.read_file path ≡ some content
    pub raw : Config
    pub decoded : around.unmarshal content ≡ some raw
    pub passed : config_check_valid lib raw ≡ ok c

  read_config-IsRead :
      (path : String) (c : Config)
      → read_config lib (around.read_file path) around.unmarshal ≡ ok c
      → IsRead path c
  unfolding read_config
  read_config-IsRead path c h = elim (Option-cases (around.read_file path)) [
    | inl e ↦ absurd (ground (arith, h, e))
    | inr (content, e) ↦ elim (Option-cases (around.unmarshal content)) [
      | inl e' ↦ absurd (ground (arith, h, e, e'))
      | inr (raw, e') ↦ record {
        content = content;
        found = e;
        raw = raw;
        decoded = e';
        passed = ground (arith, h, e, e');
      }
    ]
  ]

  -- What main had to find before it ran, and what it starts.
  pub record Running (now : ℕ) (host : Host) (flags : Flags) (c : Config) (after : Logging)
      : Type 0 where
    pub no_check : flags.check_config ≡ false
    pub path : String
    pub reads : Reads (client_program lib around) host flags path
    pub read : IsRead path c
    pub level : after.level ≡ level_of lib.unicode c.log_level
    pub loops : List PortStart
    pub starts : serve now c ≡ some loops
    pub started : AllStarted now (all_ports c.servers) loops

  -- When main of the client comes to run the service: it was not asked for a mere check, the
  -- configuration is what CheckValid made of what the file decodes to, whose path is the flag's or
  -- the default one, the logger has its level, and Main starts without a panic a loop for every
  -- port of every server, each with the port's own token and number and a ticker of the configured
  -- interval, which is at least ten seconds.
  pub main-Running :
      (now : ℕ) (host : Host) (flags : Flags) (before : Logging) (c : Config) (after : Logging)
      (done : List Effect) (result : Option ServiceError)
      → main (client_program lib around) host flags before ≡ ran c after done result
      → Running now host flags c after
  unfolding client_program init_logger serve
  main-Running now host flags before c after done result h =
      let r = main-Ran (client_program lib around) host flags before c after done result h in
      let read = read_config-IsRead r.path c r.read in
      let (loops, starts, started) = config_check_valid-AllStarted lib now read.raw c read.passed in
      record {
        no_check = r.no_check;
        path = r.path;
        reads = r.reads;
        read = read;
        level = ground (arith, r.logs);
        loops = loops;
        starts = starts;
        started = started;
      }
