-- ===== src/Gateway/Main.antt =====
-- src/main.cpp: the registration of the signal handlers, and the signals that arrive while the
-- gateway waits.
use ekg.Prelude.{Bool, true, false, Option, none, some, ℕ, List, [], ◌∷◌, if◌then◌else◌}
use ekg.Common.Outcome.{Outcome}
use ekg.Gateway.{
  Service, Gateway, Signal, sigint, sigterm, sigabrt, sigsegv, event_handler, exit_code, setup,
  create,
}

-- `main` registers `event_handler` for these two signals.
unfoldable pub is_registered : Signal → Bool
is_registered sigint = true
is_registered sigterm = true
is_registered sigabrt = false
is_registered sigsegv = false

-- The signals in the order in which they arrive, and `none` once the process has ended: the default
-- action for a signal without a handler terminates it.
unfoldable pub handle_all : List Signal → Gateway → Option Gateway
unfolding is_registered
handle_all [] g = some g
handle_all (s ∷ ss) g =
    let rest = handle_all ss (event_handler s g) in if is_registered s then rest else none

abbrev pub kills : Signal → Bool
kills sigabrt = true
kills sigsegv = true
kills _ = false

module _ (construct : Service → Outcome (Unit {0})) where
  -- Whether `signal` takes the handler for SIGINT and that for SIGTERM: it answers SIG_ERR for one
  -- that it does not.
  unfoldable pub main : Bool → Bool → Outcome Bool → Option ℕ
  main int_taken term_taken parsed =
      if int_taken
      then (if term_taken then exit_code (setup construct parsed create) else some 1)
      else some 1
