-- ===== src/Tests/Delivery.antt =====
-- Two updates of a channel with two topics, on their way to a producer with room for two messages.
use ekg.Prelude.{ℕ, ◌≡◌, refl, String, Option, none, some, [], ◌∷◌}
use ekg.Epics.Manager.{Manager, task}
use ekg.Gateway.Delivery.{call, is_live, rounds_messages, task-produce_all}
use ekg.Node.Worker.{ChannelTopicsMap}
use ekg.Node.Worker.Topics.{topics_of}
use ekg.Pubsub.Publisher.Queueing.{produce_all}
use ekg.Tests.{pvac, channel_a, producer}

abbrev pub value_of : Option ℕ → String
value_of none = ""
value_of (some n) = "1"

abbrev routes : ChannelTopicsMap
routes = ("channel:a", "t1" ∷ "t2" ∷ []) ∷ []

abbrev watching : Manager pvac (Unit {0})
watching = record { channel_map = ("channel:a", channel_a) ∷ []; targets = tt ∷ [] }

delivery_example :
    ((task pvac
        (is_live pvac value_of producer)
        (call pvac value_of producer)
        2
        watching
        (routes, [])).1.1
      ≡ produce_all producer
          (rounds_messages pvac value_of producer (λ j. topics_of j routes) 2 watching (routes, []))
          [])
    × ((j : String)
        → topics_of j
            (task pvac
              (is_live pvac value_of producer)
              (call pvac value_of producer)
              2
              watching
              (routes, [])).1.0
          ≡ topics_of j routes)
delivery_example = task-produce_all pvac value_of producer 2 watching routes [] refl
