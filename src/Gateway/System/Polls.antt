-- ===== src/Gateway/System/Polls.antt =====
-- One channel of a round of the polling thread, with the worker's handler as the only one.
use ekg.Prelude.{◌≡◌, refl, sym, ap, ◌∙◌, String, Option, List, [], ◌∷◌}
use ekg.Epics.Channel.{Pvac, EpicsChannel}
use ekg.Epics.Manager.{poll_channel, process_iterator}
use ekg.Epics.Manager.Rounds.{announce, process_iterator-announce}
use ekg.Gateway.Delivery.{
  World, call, is_live, Delivers, deliver-Delivers, announce-deliver, filter_all,
}
use ekg.Node.Worker.Events.{all_messages}
use ekg.Node.Worker.Topics.{topics_of}
use ekg.Pubsub.Publisher.{Producer}
use ekg.Pubsub.Publisher.Queueing.{produce_all}

module _ (pvac : Pvac) (value_of : Option (Pvac.Structure pvac) → String) {Q : Type 0}
    (producer : Producer Q) where
  -- The channel is polled, the handler stays, the messages for its events are handed to the
  -- producer, and the topics stay.
  pub process_iterator-Delivers :
      (c : EpicsChannel pvac) (targets : List (Unit {0})) (w : World pvac value_of producer)
      → targets ≡ tt ∷ []
      → let (c', targets', w') =
          process_iterator pvac
            (is_live pvac value_of producer)
            (call pvac value_of producer)
            c
            targets
            w in
        (c' ≡ (poll_channel pvac c).1)
        × (targets' ≡ tt ∷ [])
        × (w'.1
            ≡ produce_all producer
                (all_messages pvac value_of (λ j. topics_of j w.0) (poll_channel pvac c).0)
                w.1)
        × ((j : String) → topics_of j w'.0 ≡ topics_of j w.0)
  unfolding Delivers
  process_iterator-Delivers c targets w h =
      let es = (poll_channel pvac c).0 in
      let (polled, kept, world) =
        process_iterator-announce pvac (is_live pvac value_of producer)
          (call pvac value_of producer) (λ h j x v. refl) c targets w in
      let all = filter_all pvac value_of producer w in
      let whole =
        world
        ∙ ap
            (λ ts.
              announce pvac (is_live pvac value_of producer) (call pvac value_of producer) es ts w)
            (all targets ∙ h)
        ∙ announce-deliver pvac value_of producer es w in
      let (sent, topics) = deliver-Delivers pvac value_of producer es w in
      (
        polled,
        sym (all _) ∙ kept ∙ all targets ∙ h,
        ap (λ v. v.1) whole ∙ sent,
        λ j. ap (λ v. topics_of j v.0) whole ∙ topics j,
      )
