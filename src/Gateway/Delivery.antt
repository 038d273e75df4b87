-- ===== src/Gateway/Delivery.antt =====
-- From the updates of the channels to the broker: the round of the manager's thread
-- (EpicsServiceManager::task) with the handler of the worker
-- (AcquireCommandWorker::epicsMonitorEvent), which pushes each message by IPublisher::pushMessage.
use mathlib.Core.Path.{fun_ext, ap₂}
use ekg.Prelude.{
  ℕ, zero, suc, ◌≡◌, refl, sym, ap, ◌∙◌, String, Bool, true, Option, some, List, [], ◌∷◌, ◌++◌,
  filter,
}
use ekg.Prelude.StdMap.{StdMap}
use ekg.Epics.Channel.{Pvac, MonitorEvent, EpicsChannel}
use ekg.Epics.Manager.{Manager, poll_channel, task_round, task}
use ekg.Epics.Manager.Rounds.{announce, announce_all, task_round-announce_all, targets-task_round}
use ekg.Node.Worker.{ChannelTopicsMap, MonitorMessage, epics_monitor_event}
use ekg.Node.Worker.Events.{all_messages, epics_monitor_event-all_messages}
use ekg.Node.Worker.Topics.{topics_of}
use ekg.Pubsub.Publisher.{Producer, push_message}
use ekg.Pubsub.Publisher.Queueing.{produce_all}

module _ (pvac : Pvac) (value_of : Option (Pvac.Structure pvac) → String) {B : Type 0}
    (producer : Producer B) where
  abbrev pub World : Type 0
  World = ChannelTopicsMap × B

  -- The answer of `pushMessage` is not looked at.
  pub publish : List MonitorMessage → B → B
  unfolding push_message
  publish [] b = b
  publish (m ∷ ms) b = publish ms (push_message producer (some m) b).1

  -- epicsMonitorEvent, in a world of the worker's map and the broker.
  pub deliver : List (MonitorEvent pvac) → World → World
  unfolding publish
  deliver es (t, b) =
      let (sent, t') = epics_monitor_event pvac value_of es t in (t', publish sent b)

  -- The one handler is the worker's, which lives as long as the worker.
  abbrev pub call : Unit {0} → List (MonitorEvent pvac) → World → World
  call h es w = deliver es w

  abbrev pub is_live : World → Unit {0} → Bool
  is_live w h = true

  -- What a round is to send: of each channel in the order of the names, the messages for its events.
  abbrev pub round_messages :
      (String → List String) → StdMap String (EpicsChannel pvac) → List MonitorMessage
  round_messages topics [] = []
  round_messages topics ((k, c) ∷ rest) =
      all_messages pvac value_of topics (poll_channel pvac c).0 ++ round_messages topics rest

  publish-produce_all :
      (ms : List MonitorMessage) (b : B) → publish ms b ≡ produce_all producer ms b
  unfolding publish push_message
  publish-produce_all [] b = refl
  publish-produce_all (m ∷ ms) b = publish-produce_all ms (producer.produce m b).1

  pub produce_all-append :
      (ms ns : List MonitorMessage) (b : B)
      → produce_all producer (ms ++ ns) b ≡ produce_all producer ns (produce_all producer ms b)
  produce_all-append [] ns b = refl
  produce_all-append (m ∷ ms) ns b = produce_all-append ms ns (producer.produce m b).1

  pub announce-deliver :
      (es : List (MonitorEvent pvac)) (w : World)
      → announce pvac is_live call es (tt ∷ []) w ≡ deliver es w
  unfolding deliver epics_monitor_event
  announce-deliver [] w = refl
  announce-deliver (e ∷ es) w = refl

  -- The broker behind some events, and the topics, which stay.
  unfoldable pub Delivers : List MonitorMessage → World → World → Type 0
  Delivers ms (t, b) (t', b') =
      (b' ≡ produce_all producer ms b) × ((j : String) → topics_of j t' ≡ topics_of j t)

  pub deliver-Delivers :
      (es : List (MonitorEvent pvac)) (w : World)
      → Delivers (all_messages pvac value_of (λ j. topics_of j w.0) es) w (deliver es w)
  unfolding Delivers deliver
  deliver-Delivers es (t, b) =
      let (sent, kept) = epics_monitor_event-all_messages pvac value_of es t in
      (
        publish-produce_all (epics_monitor_event pvac value_of es t).0 b
            ∙ ap (λ ms. produce_all producer ms b) sent,
        kept,
      )

  announce_all-Delivers :
      (map : StdMap String (EpicsChannel pvac)) (w : World)
      → Delivers
          (round_messages (λ j. topics_of j w.0) map)
          w
          (announce_all pvac is_live call (tt ∷ []) map w)
  unfolding Delivers
  announce_all-Delivers [] w = (refl, λ j. refl)
  announce_all-Delivers ((k, c) ∷ rest) w =
      let es = (poll_channel pvac c).0 in
      let (sent, kept) = deliver-Delivers es w in
      let (sent', kept') = announce_all-Delivers rest (deliver es w) in
      let same : ◌≡◌ {A = String → List String} (λ j. topics_of j (deliver es w).0)
          (λ j. topics_of j w.0) =
        fun_ext kept in
      let first = ap (announce_all pvac is_live call (tt ∷ []) rest) (announce-deliver es w) in
      (
        ap (λ v. v.1) first
            ∙ sent'
            ∙ ap₂ (λ topics b. produce_all producer (round_messages topics rest) b) same sent
            ∙ sym (produce_all-append (all_messages pvac value_of (λ j. topics_of j w.0) es) _ w.1),
        λ j. ap (λ v. topics_of j v.0) first ∙ kept' j ∙ kept j,
      )

  -- One round hands to the producer, for the channels in the order of their
  -- names and the events that each polls, one message to each topic of the channel for each update,
  -- and nothing else; the topics stay as they are.
  task_round-produce_all :
      (m : Manager pvac (Unit {0})) (t : ChannelTopicsMap) (b : B)
      → m.targets ≡ tt ∷ []
      → ((task_round pvac is_live call m (t, b)).1.1
          ≡ produce_all producer (round_messages (λ j. topics_of j t) m.channel_map) b)
        × ((j : String) → topics_of j (task_round pvac is_live call m (t, b)).1.0 ≡ topics_of j t)
  unfolding Delivers
  task_round-produce_all m t b h =
      let round =
        task_round-announce_all pvac is_live call (λ h j x w. refl) m (t, b)
        ∙ ap (λ ts. announce_all pvac is_live call ts m.channel_map (t, b))
            (ap (filter (is_live (t, b))) h) in
      let (sent, kept) = announce_all-Delivers m.channel_map (t, b) in
      (ap (λ v. v.1) round ∙ sent, λ j. ap (λ v. topics_of j v.0) round ∙ kept j)

  pub filter_all : (w : World) (hs : List (Unit {0})) → filter (is_live w) hs ≡ hs
  filter_all w [] = refl
  filter_all w (h ∷ hs) = ap (λ l. h ∷ l) (filter_all w hs)

  -- What some rounds are to send, with the topics as they are at the start.
  abbrev pub rounds_messages :
      (String → List String) → ℕ → Manager pvac (Unit {0}) → World → List MonitorMessage
  rounds_messages topics zero m w = []
  rounds_messages topics (suc n) m w =
      let next = task_round pvac is_live call m w in
      round_messages topics m.channel_map ++ rounds_messages topics n next.0 next.1

  -- With the worker's handler as the only one, the polling thread, in any number of rounds without
  -- a command between them, hands to the producer, round by round, for the channels in the order
  -- of their names and the events that each polls, one message to each topic of the channel for
  -- each update, and nothing else, whatever the producer answers; the topics stay as they are.
  pub task-produce_all :
      (rounds : ℕ) (m : Manager pvac (Unit {0})) (t : ChannelTopicsMap) (b : B)
      → m.targets ≡ tt ∷ []
      → ((task pvac is_live call rounds m (t, b)).1.1
          ≡ produce_all producer (rounds_messages (λ j. topics_of j t) rounds m (t, b)) b)
        × ((j : String) → topics_of j (task pvac is_live call rounds m (t, b)).1.0 ≡ topics_of j t)
  unfolding task
  task-produce_all zero m t b h = (refl, λ j. refl)
  task-produce_all (suc n) m t b h =
      let (m', (t', b')) = task_round pvac is_live call m (t, b) in
      let (sent, kept) = task_round-produce_all m t b h in
      let targets : m'.targets ≡ tt ∷ [] =
        sym (filter_all (t, b) m'.targets)
        ∙ targets-task_round pvac is_live call (λ h j x w. refl) m (t, b)
        ∙ filter_all (t, b) m.targets
        ∙ h in
      let (sent', kept') = task-produce_all n m' t' b' targets in
      let same : ◌≡◌ {A = String → List String} (λ j. topics_of j t') (λ j. topics_of j t) =
        fun_ext kept in
      (
        sent'
            ∙ ap₂ (λ topics c. produce_all producer (rounds_messages topics n m' (t', b')) c) same
                sent
            ∙ sym (produce_all-append (round_messages (λ j. topics_of j t) m.channel_map) _ b),
        λ j. kept' j ∙ kept j,
      )
