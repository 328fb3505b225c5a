-- ===== src/Service/Lifecycle.antt =====
-- The exit channel of a run: `Main` waits for it to be closed, and closing it twice is a panic.
use connauth.Common.{
  ◌≡◌, ◌≢◌, ◌⊎◌, inl, inr, refl, Option, none, some, List, [], ◌∷◌, ◌++◌, ◌==◌, string_eq, eq_iff,
  arith, if◌then◌else◌, Bool-cases,
}
use connauth.Service.{
  ServiceOption, Effect, starts_main, awaits_interrupt, closes_exit, discards_output,
  disables_timestamp, adds_service_hook, Manager, calls_start, calls_stop, windows_run, new_failed,
  not_interactive, program_effects,
}

pub data Life : Type 0 where
  idle running ended : Life

-- One effect: `none` is a second start, or a close of a channel that is closed or not made.
abbrev pub after_effect : Life → Effect → Option Life
after_effect idle starts_main = some running
after_effect running starts_main = none
after_effect ended starts_main = none
after_effect running closes_exit = some ended
after_effect idle closes_exit = none
after_effect ended closes_exit = none
after_effect life awaits_interrupt = some life
after_effect life discards_output = some life
after_effect life disables_timestamp = some life
after_effect life adds_service_hook = some life

abbrev pub live : Life → List Effect → Option Life
live life [] = some life
live life (e ∷ es) = elim (after_effect life e) [ none ↦ none | some next ↦ live next es ]

-- The service manager starts the program once, and then stops it once.
abbrev pub IsOrderly : Manager → Type 0
IsOrderly m = m.callbacks ≡ calls_start ∷ calls_stop ∷ []

managed-live :
    (m : Manager)
    → IsOrderly m
    → live idle ((if m.interactive then [] else not_interactive m) ++ program_effects m.callbacks)
      ≡ some ended
unfolding program_effects
managed-live m o = rw o (elim (Bool-cases m.interactive) [
  | inl terminal ↦ rw terminal refl
  | inr service ↦ elim (Bool-cases m.has_logger) [
    | inl logs ↦ rw (service, logs) refl
    | inr silent ↦ rw (service, silent) refl
  ]
])

-- On Windows, under a service manager that starts and then stops the program once, Run either
-- reports that the service could not be made and has done nothing, or starts Main once and then
-- closes its exit channel once, whether it runs in a terminal or not. Without a name it
-- never reports an error.
pub windows_run-IsOrderly :
    (option : ServiceOption) (m : Manager)
    → IsOrderly m
    → (option.name ≢ "") × (windows_run option m ≡ ([], some new_failed))
      ⊎ (live idle (windows_run option m).0 ≡ some ended)
        × (option.name ≡ "" → (windows_run option m).1 ≡ none)
unfolding windows_run
windows_run-IsOrderly option m o = elim (Bool-cases (option.name == "")) [
  | inl unnamed ↦ inr (rw unnamed refl, λ e. rw unnamed refl)
  | inr named ↦
      let given : option.name ≢ "" = λ e. ground (arith, named, eq_iff option.name "", e) in
      elim (Bool-cases m.creates) [
        | inl made ↦ inr (rw (named, made) (managed-live m o), λ e. absurd (given e))
        | inr failed ↦ inl (given, rw (named, failed) refl)
      ]
]
