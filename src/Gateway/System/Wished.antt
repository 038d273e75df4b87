-- ===== src/Gateway/System/Wished.antt =====
-- Each delivery follows the commands whose tasks have begun.
use ekg.Prelude.{
  ◌≡◌, refl, sym, ap, ◌∙◌, String, true, Option, List, [], ◌∷◌, ◌++◌, All, append_assoc,
}
use ekg.Consumer.{JsonLibrary, Subscriber}
use ekg.Data.Orm.{Orm}
use ekg.Epics.Channel.{Pvac, MonitorEvent}
use ekg.Gateway.Pipeline.{acquires}
use ekg.Gateway.System.{Program, Label, polled, Run}
use ekg.Gateway.System.Invariant.{IsSound}
use ekg.Gateway.System.Sends.{Routes, begun, begun_more, routed, asked, sends, routes, Run-sends}
use ekg.Node.Worker.{has, WorkerState}
use ekg.Node.Worker.Events.{all_messages, All-all_messages}
use ekg.Node.Worker.Overlap.Routes.{topics, route_all, topics-run_all}
use ekg.Node.Worker.Topics.{AllDistinct, last_wish, run_all-last_wish}
use ekg.Pubsub.Publisher.{Producer}
use ekg.Pubsub.Publisher.Queueing.{produce_all}

module _ (pvac : Pvac) (value_of : Option (Pvac.Structure pvac) → String) where
  -- The messages of the steps behind some others are those that the topics left by these ask for.
  sends-append :
      (ls ks : List (Label pvac)) (f : Routes)
      → sends pvac value_of f (ls ++ ks)
        ≡ sends pvac value_of f ls ++ sends pvac value_of (route_all (acquires (begun ls)) f) ks
  sends-append [] ks f = refl
  sends-append (l ∷ ls) ks f =
      ap (λ ms. asked pvac value_of l f ++ ms)
        (sends-append ls ks (routed l f)
          ∙ ap (λ g. sends pvac value_of (routed l f) ls ++ sends pvac value_of g ks)
              (begun_more l ls f))
      ∙ sym (append_assoc (asked pvac value_of l f) _ _)

  has-route_all :
      {H : Type 0} (ls : List (Label pvac)) (w : WorkerState pvac H) (channel topic : String)
      → AllDistinct pvac w
      → has topic (route_all (acquires (begun ls)) (topics pvac w) channel)
        ≡ last_wish channel topic (acquires (begun ls)) (has topic (topics pvac w channel))
  has-route_all ls w channel topic d =
      ap (λ f. has topic (f channel)) (sym (topics-run_all pvac (acquires (begun ls)) w))
      ∙ (run_all-last_wish pvac (acquires (begun ls)) w channel topic d).0

module _ (orm : Orm) (pvac : Pvac) (value_of : Option (Pvac.Structure pvac) → String)
    (json : JsonLibrary) {B Q : Type 0} (subscriber : Subscriber B) (producer : Producer Q) where
  -- However the steps of the threads follow one another, as long as each task's block on the map
  -- runs alone and no call of `monitorChannel` throws: when a channel is polled its updates go
  -- to the topics of the channel as the tasks that began before leave them, a topic being there
  -- exactly when the last of the commands about the two activates it, or there is none and it was
  -- there at first; so each message goes to a topic that is wanted then. The messages come between
  -- those of the steps before and those of the steps behind.
  pub Run-last_wish :
      {s t : Program orm pvac B Q} (before later : List (Label pvac))
      (es : List (MonitorEvent pvac))
      → Run orm pvac value_of json subscriber producer s (before ++ polled es ∷ later) t
      → IsSound orm pvac value_of json subscriber producer s
      → let f = routes orm pvac value_of json subscriber producer s in
        let now = route_all (acquires (begun before)) f in
        let ms = all_messages pvac value_of now es in
        (t.queue
          ≡ produce_all producer
              (sends pvac value_of f before ++ (ms ++ sends pvac value_of now later))
              s.queue)
        × ((channel topic : String)
            → has topic (now channel)
              ≡ last_wish channel topic (acquires (begun before)) (has topic (f channel)))
        × All
            (λ m.
              last_wish m.distribution_key m.queue
                (acquires (begun before))
                (has m.queue (f m.distribution_key))
              ≡ true)
            ms
  Run-last_wish {s} {t} before later es r i =
      let f = routes orm pvac value_of json subscriber producer s in
      let wished = λ (channel topic : String).
        has-route_all pvac value_of before s.pool.worker channel topic i.distinct in
      (
        (Run-sends orm pvac value_of json subscriber producer r i.handled).0
            ∙ ap (λ ms. produce_all producer ms s.queue)
                (sends-append pvac value_of before (polled es ∷ later) f),
        wished,
        All-all_messages pvac value_of
            (λ channel topic.
              last_wish channel topic (acquires (begun before)) (has topic (f channel)) ≡ true)
            (route_all (acquires (begun before)) f)
            (λ channel topic h. sym (wished channel topic) ∙ h) es,
      )
