-- ===== src/Consumer/Thread.antt =====
-- controller/command/CMDController.h and CMDController.cpp: the life of a controller, which starts
-- its thread when it is constructed and stops it when it is destroyed. A thread makes the rounds
-- that begin before it reads that `run` is false.
pub mod Offsets
pub mod Committed
use ekg.Prelude.{
  ℕ, zero, suc, String, Bool, true, false, List, [], ◌∷◌, ◌++◌, append_text, if◌then◌else◌,
}
use ekg.Common.Outcome.{Outcome, ok, throws, undefined, ◌>>=◌}
use ekg.Common.Log.{LogLine, line, info}
use ekg.Command.Types.{Command}
use ekg.Options.{CmdControllerConfig}
use ekg.Consumer.{JsonLibrary, Subscriber, consume_round}

-- `t_subscriber` is whether the thread is joinable.
pub record CmdController : Type 0 where
  pub configuration : CmdControllerConfig
  pub run : Bool
  pub t_subscriber : Bool
  pub log : List LogLine

-- `run` has no value before `start` sets it.
abbrev pub initial : CmdControllerConfig → CmdController
initial configuration = record {
  configuration = configuration;
  run = false;
  t_subscriber = false;
  log = [];
}

abbrev pub announced : CmdController → CmdController
announced c = record c {
  log =
      c.log
      ++ line "Starting command controller" info
        ∷ line (append_text "Receive command message from: " c.configuration.topic_in) info
        ∷ [];
}

abbrev pub running : CmdController → CmdController
running c = record c { run = true; t_subscriber = true }

module _ {W : Type 0} (json : JsonLibrary) (subscriber : Subscriber W)
    (cmd_handler : List Command → W → Outcome (Unit {0}) × W) where
  after_rounds : List LogLine → Outcome (List LogLine) × W → Outcome (List LogLine) × W
  after_rounds log (o, w) = (o >>= λ lines. ok (log ++ lines), w)

  -- An exception that leaves a round leaves the thread: there is no further round.
  next_round :
      (W → Outcome (List LogLine) × W) → Outcome (List LogLine) × W → Outcome (List LogLine) × W
  unfolding after_rounds
  next_round rest (ok log, w) = after_rounds log (rest w)
  next_round rest (throws e, w) = (throws e, w)
  next_round rest (undefined u, w) = (undefined u, w)

  -- The loop `while (run)` of `consume` over a number of rounds.
  unfoldable pub consume : ℕ → W → Outcome (List LogLine) × W
  unfolding next_round
  consume zero w = (ok [], w)
  consume (suc n) w = next_round (consume n) (consume_round json subscriber cmd_handler w)

  module _ (set_queue : List String → W → Outcome (Unit {0}) × W) where
    started : CmdController → Outcome (Unit {0}) × W → Outcome CmdController × W
    started c (ok u, w) = (ok (running c), w)
    started c (throws e, w) = (throws e, w)
    started c (undefined u, w) = (undefined u, w)

    -- The thread is created last, when the queue has been set.
    unfoldable pub start : CmdController → W → Outcome CmdController × W
    unfolding started
    start c w = started (announced c) (set_queue (c.configuration.topic_in ∷ []) w)

    -- The constructor.
    unfoldable pub create : CmdControllerConfig → W → Outcome CmdController × W
    unfolding start
    create configuration w = start (initial configuration) w

  unfoldable pub stopped : CmdController → List LogLine → CmdController
  stopped c lines = record c {
    run = false;
    t_subscriber = false;
    log = c.log ++ lines ++ line "Stopping command controller" info ∷ [];
  }

  joined : CmdController → Outcome (List LogLine) × W → Outcome CmdController × W
  unfolding stopped
  joined c (o, w) = (o >>= λ lines. ok (stopped c lines), w)

  -- Called by the destructor, when the thread makes this number of rounds in all.
  unfoldable pub stop : ℕ → CmdController → W → Outcome CmdController × W
  unfolding joined consume
  stop rounds c w =
      let last = joined c (consume rounds w) in
      if c.t_subscriber
      then last
      else (ok (record c { log = c.log ++ line "Stopping command controller" info ∷ [] }), w)
