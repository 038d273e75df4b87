-- ===== src/Gateway.antt =====
-- EKGateway.h and EKGateway.cpp. The constructors of the services and the parse of the options are
-- parameters. `cv.wait` returns once `quit` is set: until then `setup` waits.
pub mod Starting
pub mod Pipeline
pub mod Delivery
pub mod Stream
pub mod System
pub mod Main
pub mod Configured
use ekg.Prelude.{
  ℕ, zero, suc, Option, none, some, ◌≡◌, String, Bool, true, false, List, [], ◌∷◌, ◌++◌, map,
  if◌then◌else◌,
}
use ekg.Common.Outcome.{
  Outcome, Exception, ok, throws, undefined, runtime_error, std_error, foreign,
}
use ekg.Common.Log.{LogLine, LogLevel, line, info, fatal}

-- What `setup` constructs, in this order.
pub data Service : Type 0 where
  logger epics_service_manager publisher subscriber node_controller cmd_controller : Service

pub record Gateway : Type 0 where
  pub quit : Bool
  pub terminated : Bool
  -- What was constructed and is kept, by a resolver or by a member, in order.
  pub services : List Service
  pub log : List LogLine

pub data Setup : Type 0 where
  waiting : Gateway → Setup
  returned : ℕ → Gateway → Setup
  is_undefined : String → Setup

-- Messages go to the logger at the level INFO.
abbrev pub note : List String → Gateway → Gateway
note texts g = record g { log = g.log ++ map (λ text. line text info) texts }

-- The messages in front of each constructor.
abbrev pub plan : List (List String × Service)
plan =
    ([], logger)
    ∷ ("EPICS to Kafka Gateway" ∷ "Start EPICS service" ∷ [], epics_service_manager)
    ∷ ("Start publisher service" ∷ [], publisher)
    ∷ ("Start subscriber service" ∷ [], subscriber)
    ∷ ("Start node controller" ∷ [], node_controller)
    ∷ ("Start command controller" ∷ [], cmd_controller)
    ∷ []

-- cmd_controller.reset() and node_controller.reset() give up the members; resolve().reset() gives
-- up a copy, and the services stay registered.
abbrev pub released : Service → Bool
released node_controller = true
released cmd_controller = true
released _ = false

pub without_released : List Service → List Service
without_released [] = []
without_released (s ∷ ss) = let rest = without_released ss in if released s then rest else s ∷ rest

unfoldable pub shut_down : Gateway → Gateway
unfolding without_released
shut_down g =
    let texts =
      "Stop command controller" ∷ "Stop node controller" ∷ "Stop subscriber service"
      ∷ "Stop publihser service" ∷ "Stop EPICS service" ∷ "Shoutdown compelted" ∷ [] in
    record (note texts g) { terminated = true; services = without_released g.services }

-- cv.wait: the deallocation follows once `quit` is set.
unfoldable pub awaited : Gateway → Setup
unfolding shut_down
awaited g = if g.quit then returned 0 (shut_down g) else waiting g

-- `if (logger)`: nothing is logged before there is a logger, which is the first service.
abbrev pub fatal_lines : String → List Service → List LogLine
fatal_lines text [] = []
fatal_lines text (s ∷ ss) = line text fatal ∷ []

unfoldable pub last_words : String → Gateway → Gateway
last_words text g = record g { log = g.log ++ fatal_lines text g.services }

abbrev pub words_of : Exception → String
words_of (runtime_error what) = what
words_of _ = "Undeterminated error"

module _ (construct : Service → Outcome (Unit {0})) where
  pub launched : Outcome (Unit {0}) → Service → Gateway → Outcome (Unit {0}) × Gateway
  launched (ok u) s g = (ok tt, record g { services = g.services ++ s ∷ [] })
  launched (throws e) s g = (throws e, g)
  launched (undefined why) s g = (undefined why, g)

  pub go_on :
      Outcome (Unit {0}) × Gateway
      → (Gateway → Outcome (Unit {0}) × Gateway)
      → Outcome (Unit {0}) × Gateway
  go_on (ok u, g) next = next g
  go_on (throws e, g) next = (throws e, g)
  go_on (undefined why, g) next = (undefined why, g)

  -- The constructors in turn; an exception ends the sequence.
  pub launch_all : List (List String × Service) → Gateway → Outcome (Unit {0}) × Gateway
  unfolding launched go_on
  launch_all [] g = (ok tt, g)
  launch_all ((texts, s) ∷ rest) g =
      go_on (launched (construct s) s (note texts g)) (launch_all rest)

  -- The deallocation behind cv.wait, and the catch clauses.
  pub concluded : Outcome (Unit {0}) × Gateway → Setup
  unfolding awaited last_words
  concluded (ok u, g) = awaited g
  concluded (throws e, g) = returned 1 (last_words (words_of e) g)
  concluded (undefined why, g) = is_undefined why

  -- What follows the parse of the options, which answers whether help was asked for.
  pub after_parse : Outcome Bool → Gateway → Setup
  unfolding concluded launch_all
  after_parse (ok true) g = returned 0 g
  after_parse (ok false) g = concluded (launch_all plan g)
  after_parse (throws e) g = concluded (throws e, g)
  after_parse (undefined why) g = concluded (undefined why, g)

  unfoldable pub setup : Outcome Bool → Gateway → Setup
  unfolding after_parse
  setup parsed g = after_parse parsed g

unfoldable pub create : Gateway
create = record { quit = false; terminated = false; services = []; log = [] }

unfoldable pub stop : Gateway → Gateway
stop g = record g { quit = true }

unfoldable pub is_stop_requested : Gateway → Bool
is_stop_requested g = g.quit

unfoldable pub is_terminated : Gateway → Bool
is_terminated g = g.terminated

-- EKGateway::run: EXIT_FAILURE for a result that is not zero. A gateway that waits has no code yet.
unfoldable pub exit_code : Setup → Option ℕ
exit_code (returned zero g) = some 0
exit_code (returned (suc err) g) = some 1
exit_code (waiting g) = none
exit_code (is_undefined why) = none

-- The signals that main.cpp names.
pub data Signal : Type 0 where
  sigint sigterm sigabrt sigsegv : Signal

-- event_handler of main.cpp.
unfoldable pub event_handler : Signal → Gateway → Gateway
unfolding stop
event_handler sigabrt g = g
event_handler sigsegv g = g
event_handler sigint g = stop g
event_handler sigterm g = stop g
