-- ===== src/Gateway/System/Drains.antt =====
-- The steps can always go on until the pool is idle.
use ekg.Prelude.{◌≡◌, String, Bool, Option, none, List, [], ◌∷◌, ◌++◌, String_key, ◌⊎◌}
use ekg.Prelude.StdMap.{StdMap}
use ekg.Common.Outcome.{Outcome, Exception, throws}
use ekg.Command.Types.{Command}
use ekg.Consumer.{JsonLibrary, Subscriber}
use ekg.Data.Orm.{Orm}
use ekg.Epics.Channel.{Pvac}
use ekg.Gateway.System.{Program, Label, Run}
use ekg.Gateway.System.Sends.{begun}
use ekg.Node.Worker.{call_monitor}
use ekg.Pubsub.Publisher.{Producer}

module _ (orm : Orm) (pvac : Pvac) (value_of : Option (Pvac.Structure pvac) → String)
    (json : JsonLibrary) {B Q : Type 0} (subscriber : Subscriber B) (producer : Producer Q) where
  -- A task in flight can make its call of `monitorChannel`, and the call throws: the worker of the
  -- pool does not catch the exception, and the process is terminated.
  abbrev pub IsDoomed : Program orm pvac B Q → Type 0
  IsDoomed s =
      (before after : List (String × Bool)) × (name : String) × (activate : Bool) × (e : Exception)
      × (s.pool.in_flight ≡ before ++ (name, activate) ∷ after)
      × ((call_monitor pvac name activate s.pool.worker).0 ≡ throws e)

  -- Some steps begin these tasks, and lead to a program with the lock free, these tasks that wait,
  -- and this property.
  LeadsTo :
      Program orm pvac B Q → List Command → List Command → (Program orm pvac B Q → Type 0) → Type 0
  LeadsTo s cs waiting P =
      (ls : List (Label pvac)) × (t : Program orm pvac B Q) × (Run orm pvac value_of json subscriber
        producer s ls t)
      × (begun ls ≡ cs)
      × (t.round ≡ none)
      × (t.node.tasks ≡ waiting)
      × P t

  -- So many tasks in flight.
  abbrev HasFlying : List (String × Bool) → Program orm pvac B Q → Type 0
  HasFlying fs t = t.pool.in_flight ≡ fs

  -- No task is in flight, or one ends the process.
  abbrev IsOver : Program orm pvac B Q → Type 0
  IsOver t = (t.pool.in_flight ≡ []) ⊎ IsDoomed t
