-- ===== src/Gateway/Pipeline.antt =====
-- EKGateway::commandReceived, by which the command controller hands its commands to the node
-- controller, and the tasks that the pool runs.
use ekg.Prelude.{◌≡◌, ap, String, List, [], ◌∷◌}
use ekg.Common.Outcome.{Outcome, ok, throws, undefined}
use ekg.Command.Json.{Object}
use ekg.Command.Types.{
  Command, aquire_command, get_command, put_command, info_command, AquireFields,
}
use ekg.Consumer.{JsonLibrary, Subscriber}
use ekg.Data.Orm.{Orm}
use ekg.Node.Controller.{NodeController, submit_command}
use ekg.Node.Controller.Dispatch.{aquire_fields}

-- The fields of the acquire commands.
abbrev pub acquires : List Command → List AquireFields
acquires [] = []
acquires (aquire_command b a topic ∷ cs) = aquire_fields b a topic ∷ acquires cs
acquires (get_command b topic ∷ cs) = acquires cs
acquires (put_command b value ∷ cs) = acquires cs
acquires (info_command b topic ∷ cs) = acquires cs

module _ (orm : Orm) (serialize : Object → String) {B : Type 0} where
  -- The node controller does not throw; where its behaviour is undefined, so is this.
  pub received :
      B
      → NodeController orm
      → Outcome (NodeController orm)
      → Outcome (Unit {0}) × (B × NodeController orm)
  received b n (ok n') = (ok tt, (b, n'))
  received b n (throws e) = (throws e, (b, n))
  received b n (undefined why) = (undefined why, (b, n))

  -- node_controller->submitCommand, in a world of the broker and the node controller.
  unfoldable pub command_received :
      List Command → B × NodeController orm → Outcome (Unit {0}) × (B × NodeController orm)
  unfolding received
  command_received cs (b, n) = received b n (submit_command orm serialize cs n)

  -- The subscriber acts on the broker alone.
  abbrev pub beside : Subscriber B → Subscriber (B × NodeController orm)
  beside s = record {
    get_msg = λ w. ((s.get_msg w.0).0, ((s.get_msg w.0).1, w.1));
    commit = λ w. ((s.commit w.0).0, ((s.commit w.0).1, w.1));
  }

module _ {B : Type 0} (orm : Orm) (json : JsonLibrary) where
  abbrev pub handler :
      List Command → B × NodeController orm → Outcome (Unit {0}) × (B × NodeController orm)
  handler = command_received orm json.serialize

  pub handler_takes :
      (cs : List Command) (b : B) (n n' : NodeController orm)
      → submit_command orm json.serialize cs n ≡ ok n'
      → handler cs (b, n) ≡ (ok tt, (b, n'))
  unfolding command_received
  handler_takes cs b n n' e = ap (received orm json.serialize b n) e

module _ {B : Type 0} (orm : Orm) (json : JsonLibrary) (subscriber : Subscriber B) where
  abbrev pub both : Subscriber (B × NodeController orm)
  both = beside orm json.serialize subscriber
