-- ===== src/Service.antt =====
-- utils/service: how a program runs under the system's service manager or without one, and
-- utils/logrus/hooks/service.go. github.com/kardianos/service is a parameter: `Manager` says what it
-- answers and which callbacks it makes.
pub mod Names
pub mod Lifecycle
use Prim.Native.Char.{code}
use connauth.Common.{
  ℕ, suc, ◌+◌, String, Bool, true, false, not, ◌&&◌, ◌||◌, Option, none, some, List, [], ◌∷◌, ◌++◌,
  ◌==◌, string_eq, nat_eq, Result, ok, err, refuse_if, if◌then◌else◌, ◌>>=◌, ◌>>◌,
}
use connauth.Text.{Unicode}
use connauth.Logger.Levels.{
  Level, panic_level, fatal_level, error_level, warn_level, info_level, debug_level, trace_level,
  other_level, Logging,
}

pub record ServiceOption : Type 0 where
  pub name : String
  pub display_name : String
  pub description : String

-- The package's variable `config` before the first Init.
abbrev pub no_option : ServiceOption
no_option = record { name = ""; display_name = ""; description = "" }

pub data ServiceError : Type 0 where
  empty_name name_with_space new_failed run_failed : ServiceError

abbrev pub is_empty : String → Bool
is_empty String.[] = true
is_empty (String.◌∷◌ c s) = false

module _ (u : Unicode) where
  unfoldable pub trim_left_text : String → String
  trim_left_text String.[] = ""
  trim_left_text (String.◌∷◌ c s) =
      let rest = trim_left_text s in if u.is_space (code c) then rest else String.◌∷◌ c s

  unfoldable pub trim_right_text : String → String
  trim_right_text String.[] = ""
  trim_right_text (String.◌∷◌ c s) =
      let rest = trim_right_text s in
      if u.is_space (code c) && is_empty rest then "" else String.◌∷◌ c rest

  -- strings.TrimSpace
  abbrev pub trim_space_text : String → String
  trim_space_text s = trim_right_text (trim_left_text s)

-- strings.Index(name, " ") >= 0
unfoldable pub has_blank : String → Bool
has_blank String.[] = false
has_blank (String.◌∷◌ c s) = code c == b' ' || has_blank s

-- `Init` on Windows: the option that is kept, or an error.
unfoldable pub windows_init : Unicode → ServiceOption → Result ServiceError ServiceOption
windows_init u option = do
  let name = trim_space_text u option.name
  refuse_if (name == "") empty_name
  refuse_if (has_blank name) name_with_space
  ok (record option { name = name })

-- What a run does to the program and to its surroundings, in order.
pub data Effect : Type 0 where
  -- the goroutine of the program's `Main`
  starts_main : Effect
  awaits_interrupt closes_exit : Effect
  discards_output disables_timestamp adds_service_hook : Effect

pub data Callback : Type 0 where
  calls_start calls_stop : Callback

pub record Manager : Type 0 where
  pub creates : Bool
  pub interactive : Bool
  pub has_logger : Bool
  -- the callbacks of Run, and whether it returns no error
  pub callbacks : List Callback
  pub run_ok : Bool

-- `Run` without a service manager, on the other systems and on Windows without a name.
abbrev pub run_in_terminal : List Effect
run_in_terminal = starts_main ∷ awaits_interrupt ∷ closes_exit ∷ []

-- `Start` and `Stop` of a program.
unfoldable pub program_effects : List Callback → List Effect
program_effects [] = []
program_effects (calls_start ∷ cs) = starts_main ∷ program_effects cs
program_effects (calls_stop ∷ cs) = closes_exit ∷ program_effects cs

abbrev pub not_interactive : Manager → List Effect
not_interactive m =
    discards_output ∷ disables_timestamp ∷ (if m.has_logger then adds_service_hook ∷ [] else [])

-- `Run` on Windows with the option that Init kept.
unfoldable pub windows_run : ServiceOption → Manager → List Effect × Option ServiceError
windows_run option m =
    if option.name == ""
    then (run_in_terminal, none)
    else if not m.creates
    then ([], some new_failed)
    else (
      (if m.interactive then [] else not_interactive m) ++ program_effects m.callbacks,
      if m.run_ok then none else some run_failed,
    )

-- The interface `system`, on the option that is kept.
pub record System : Type 0 where
  pub init : ServiceOption → ServiceOption → ServiceOption × Option ServiceError
  pub interactive : Bool
  pub platform : String
  pub run : ServiceOption → List Effect × Option ServiceError

abbrev pub keep :
    ServiceOption → Result ServiceError ServiceOption → ServiceOption × Option ServiceError
keep kept (ok option) = (option, none)
keep kept (err e) = (kept, some e)

abbrev pub system_windows : Unicode → Manager → String → System
system_windows u m platform = record {
  init = λ kept option. keep kept (windows_init u option);
  interactive = m.interactive;
  platform = platform;
  run = λ kept. windows_run kept m;
}

abbrev pub system_no_service : String → System
system_no_service goos = record {
  init = λ kept option. (kept, none);
  interactive = true;
  platform = goos;
  run = λ kept. (run_in_terminal, none);
}

-- What a hook's `Fire` calls on the service's logger.
pub data LogCall : Type 0 where
  error warning info : String → LogCall

-- `line` is the entry's text, `none` where it cannot be made.
unfoldable pub service_fire : Level → Option String → Result (Unit {0}) (Option LogCall)
service_fire level none = err tt
service_fire level (some line) = elim level [
  | panic_level ↦ ok (some (error line))
  | fatal_level ↦ ok (some (error line))
  | error_level ↦ ok (some (error line))
  | warn_level ↦ ok (some (warning line))
  | info_level ↦ ok (some (info line))
  | debug_level ↦ ok (some (info line))
  | trace_level ↦ ok (some (info line))
  | other_level n ↦ ok none
]
