-- ===== src/Entry/Exits.antt =====
-- When each exit of `main` is taken.
use connauth.Common.{
  ◌≡◌, ◌≢◌, inl, inr, String, true, false, Option, none, some, List, ◌==◌, string_eq, eq_iff, arith,
  ok, err, Bool-cases, Option-cases, Result-cases,
}
use connauth.Logger.{SlsError}
use connauth.Logger.Levels.{Logging}
use connauth.Service.{ServiceError, Effect, no_option}
use connauth.Entry.{
  Program, Host, Flags, Exit, no_current_path, config_ok, read_failed, logger_failed, ran,
  config_path, run_service, main,
}

module _ {C E : Type 0} (program : Program C E) (host : Host) where
  -- The file that a run reads: the flag's, or the default one beside the program for an empty flag.
  pub data Reads (flags : Flags) : String → Type 0 where
    given : flags.config_file ≢ "" → Reads flags flags.config_file
    beside :
        (dir : String)
        → flags.config_file ≡ ""
        → host.current_path ≡ some dir
        → Reads flags (host.join dir program.default_config_file)

  -- The ways to end.
  pub data Ends (flags : Flags) (logging : Logging) : Exit C E → Type 0 where
    without_path :
        flags.config_file ≡ "" → host.current_path ≡ none → Ends flags logging no_current_path
    unreadable :
        (path : String) (e : E)
        → Reads flags path
        → program.read_config path ≡ err e
        → Ends flags logging (read_failed e)
    checked :
        (path : String) (c : C)
        → Reads flags path
        → program.read_config path ≡ ok c
        → flags.check_config ≡ true
        → Ends flags logging config_ok
    unlogged :
        (path : String) (c : C) (e : SlsError)
        → Reads flags path
        → program.read_config path ≡ ok c
        → flags.check_config ≡ false
        → (program.init_logger c logging).0 ≡ some e
        → Ends flags logging (logger_failed e)
    served :
        (path : String) (c : C)
        → Reads flags path
        → program.read_config path ≡ ok c
        → flags.check_config ≡ false
        → (program.init_logger c logging).0 ≡ none
        → Ends flags logging (run_service program host c (program.init_logger c logging).1)

  -- A run that came to the service: the configuration was read and was not only checked, the logger was
  -- set up, and Run was called with the option that Init kept.
  pub record Ran (flags : Flags) (before : Logging) (c : C) (after : Logging) (done : List Effect)
      (result : Option ServiceError) : Type 0 where
    pub path : String
    pub reads : Reads flags path
    pub read : program.read_config path ≡ ok c
    pub no_check : flags.check_config ≡ false
    pub logger : (program.init_logger c before).0 ≡ none
    pub logs : (program.init_logger c before).1 ≡ after
    pub runs :
        host.system.run (host.system.init no_option (program.service_option c)).0 ≡ (done, result)

  config_path-Reads :
      (flags : Flags) (path : String)
      → config_path program host flags ≡ some path
      → Reads flags path
  unfolding config_path
  config_path-Reads flags path h = elim (Bool-cases (flags.config_file == "")) [
    | inl empty ↦ elim (Option-cases host.current_path) [
      | inl e ↦ absurd (ground (arith, h, empty, e))
      | inr (dir, e) ↦
          let same : host.join dir program.default_config_file ≡ path =
            ground (arith, h, empty, e) in
          rw (← same) (beside dir ((eq_iff flags.config_file "").0 empty) e)
    ]
    | inr named ↦
        let same : flags.config_file ≡ path = ground (arith, h, named) in
        rw (← same) (given (λ e. ground (arith, named, eq_iff flags.config_file "", e)))
  ]

  config_path-none :
      (flags : Flags)
      → config_path program host flags ≡ none
      → (flags.config_file ≡ "") × (host.current_path ≡ none)
  unfolding config_path
  config_path-none flags h = elim (Bool-cases (flags.config_file == "")) [
    | inl empty ↦ elim (Option-cases host.current_path) [
      | inl e ↦ ((eq_iff flags.config_file "").0 empty, e)
      | inr (dir, e) ↦ absurd (ground (arith, h, empty, e))
    ]
    | inr named ↦ absurd (ground (arith, h, named))
  ]

  -- Whatever the flags and the files, main of either program ends in one of five ways, each under
  -- its own condition: without a path where the flag is empty and the program's directory unknown;
  -- with the error of readConfig; after a mere check of a configuration that was read; with the
  -- error of the logger; or after a run of the service. The file that is read is the flag's, or the
  -- default one beside the program where the flag is empty.
  pub main-Ends :
      (flags : Flags) (logging : Logging) → Ends flags logging (main program host flags logging)
  unfolding main
  main-Ends flags logging = elim (Option-cases (config_path program host flags)) [
    | inl e ↦
        let facts = config_path-none flags e in
        let same : no_current_path ≡ main program host flags logging = ground (arith, e) in
        rw (← same) (without_path facts.0 facts.1)
    | inr (path, e) ↦
        let reads = config_path-Reads flags path e in
        elim (Result-cases (program.read_config path)) [
          | inr (failure, h) ↦
              let same : read_failed failure ≡ main program host flags logging =
                ground (arith, e, h) in
              rw (← same) (unreadable path failure reads h)
          | inl (c, h) ↦ elim (Bool-cases flags.check_config) [
            | inl only ↦
                let same : config_ok ≡ main program host flags logging =
                  ground (arith, e, h, only) in
                rw (← same) (checked path c reads h only)
            | inr run ↦ elim (Option-cases (program.init_logger c logging).0) [
              | inl fine ↦
                  let same : run_service program host c (program.init_logger c logging).1
                      ≡ main program host flags logging =
                    ground (arith, e, h, run, fine) in
                  rw (← same) (served path c reads h run fine)
              | inr (failure, bad) ↦
                  let same : logger_failed failure ≡ main program host flags logging =
                    ground (arith, e, h, run, bad) in
                  rw (← same) (unlogged path c failure reads h run bad)
            ]
          ]
        ]
  ]

  Ends-Ran :
      (flags : Flags) (before : Logging) (exit : Exit C E) (c : C) (after : Logging)
      (done : List Effect) (result : Option ServiceError)
      → Ends flags before exit
      → exit ≡ ran c after done result
      → Ran flags before c after done result
  unfolding run_service
  Ends-Ran flags before _ c after done result (without_path _ _) h = cc h
  Ends-Ran flags before _ c after done result (unreadable path e _ _) h = cc h
  Ends-Ran flags before _ c after done result (checked path d _ _ _) h = cc h
  Ends-Ran flags before _ c after done result (unlogged path d e _ _ _ _) h = cc h
  Ends-Ran flags before _ c after done result (served path d reads read off fine) h =
      let same : d ≡ c = cc h in
      record {
        path = path;
        reads = reads;
        read = rw (← same) read;
        no_check = off;
        logger = rw (← same) fine;
        logs = rw (← same) (let e : (program.init_logger d before).1 ≡ after = cc h in e);
        runs = rw (← same) (
            let e : host.system.run (host.system.init no_option (program.service_option d)).0
                ≡ (done, result) =
              cc h in
            e);
      }

  pub main-Ran :
      (flags : Flags) (before : Logging) (c : C) (after : Logging) (done : List Effect)
      (result : Option ServiceError)
      → main program host flags before ≡ ran c after done result
      → Ran flags before c after done result
  main-Ran flags before c after done result h =
      Ends-Ran flags before (main program host flags before) c after done result
        (main-Ends flags before) h
