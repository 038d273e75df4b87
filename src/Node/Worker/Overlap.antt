-- ===== src/Node/Worker/Overlap.antt =====
-- Tasks of the pool that overlap. The two parts of `acquireManagement` are steps of their own: the
-- block on the map, which computes `activate`, and the call of `monitorChannel` with that value.
-- Between its steps a task is in flight. Each step is atomic here: these are the runs in which no
-- two tasks are in the block at once. The source does not enforce this; `Block` takes the block
-- apart.
pub mod Routes
pub mod Serial
pub mod Race
pub mod Block
use ekg.Prelude.{◌≡◌, String, Bool, Option, List, [], ◌∷◌, ◌++◌, String_key, ◌==◌, if◌then◌else◌}
use ekg.Common.Outcome.{Outcome, ok}
use ekg.Command.Types.{AquireFields}
use ekg.Epics.Channel.{Pvac}
use ekg.Node.Worker.{WorkerState, update_map, call_monitor}

-- A task in flight has the name of its channel and the value that it computed.
pub record Tasks (pvac : Pvac) (H : Type 0) : Type 0 where
  pub worker : WorkerState pvac H
  pub in_flight : List (String × Bool)

-- The values of the tasks in flight on a channel, oldest first.
abbrev pub flags : String → List (String × Bool) → List Bool
flags channel [] = []
flags channel ((name, activate) ∷ rest) =
    let others = flags channel rest in if name == channel then activate ∷ others else others

abbrev pub Returns : Outcome (Unit {0}) → Type 0
Returns o = o ≡ ok tt

module _ (pvac : Pvac) {H : Type 0} where
  unfoldable pub begin : AquireFields → Tasks pvac H → Tasks pvac H
  unfolding update_map
  begin c s =
      let (activate, w) = update_map pvac c s.worker in
      record { worker = w; in_flight = s.in_flight ++ (c.channel_name, activate) ∷ [] }

  unfoldable pub end : String → Bool → List (String × Bool) → Tasks pvac H → Tasks pvac H
  unfolding call_monitor
  end name activate rest s = record {
    worker = (call_monitor pvac name activate s.worker).1;
    in_flight = rest;
  }

  -- The runs from one state to another, with the commands of the tasks in the order in which these
  -- begin. Any task in flight may be the next to end. `May` says when a task may begin. A task ends
  -- only when its call of `monitorChannel` returns: the pool's worker catches nothing, so that an
  -- exception ends the process, and there is no further step.
  pub data Runs (May : AquireFields → Tasks pvac H → Type 0)
      : Tasks pvac H → List AquireFields → Tasks pvac H → Type 0 where
    rest : {s : Tasks pvac H} → Runs May s [] s
    begins :
        {s t : Tasks pvac H} {cs : List AquireFields} (c : AquireFields)
        → May c s
        → Runs May (begin c s) cs t
        → Runs May s (c ∷ cs) t
    ends :
        {s t : Tasks pvac H} {cs : List AquireFields} (before after : List (String × Bool))
        (name : String) (activate : Bool)
        → s.in_flight ≡ before ++ (name, activate) ∷ after
        → Returns (call_monitor pvac name activate s.worker).0
        → Runs May (end name activate (before ++ after) s) cs t
        → Runs May s cs t
