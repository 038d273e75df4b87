-- ===== src/Node/Worker/Events.antt =====
-- What the events of the channels are turned into.
use mathlib.Core.Path.{fun_ext, ap₂}
use ekg.Prelude.{
  ◌≡◌, refl, ap, ◌∙◌, String, true, Option, List, [], ◌∷◌, ◌++◌, map, String_key, arith, eq_iff,
  All, All-map, All-append, ==_refl,
}
use ekg.Prelude.StdMap.{at, find-at, at-eq-get_or}
use ekg.Epics.Channel.{Pvac, MonitorEvent, MonitorType, fail, cancel, disconnec, fresh_data}
use ekg.Node.Worker.{
  ChannelTopicsMap, has, MonitorMessage, monitor_message, monitor_event, epics_monitor_event,
}
use ekg.Node.Worker.Topics.{topics_of}

module _ (pvac : Pvac) (value_of : Option (Pvac.Structure pvac) → String) where
  -- One message to each topic of the event's channel, if the event carries data.
  abbrev pub messages_for :
      (String → List String)
      → MonitorType
      → String
      → Option (Pvac.Structure pvac)
      → List MonitorMessage
  messages_for topics fresh_data channel payload =
      map (λ topic. monitor_message channel topic (value_of payload)) (topics channel)
  messages_for topics _ channel payload = []

  abbrev pub all_messages : (String → List String) → List (MonitorEvent pvac) → List MonitorMessage
  all_messages topics [] = []
  all_messages topics (e ∷ es) =
      messages_for topics e.type e.channel_name e.payload ++ all_messages topics es

  topics_of-at :
      (channel j : String) (m : ChannelTopicsMap) → topics_of j (at channel [] m).1 ≡ topics_of j m
  topics_of-at channel j m = ground (arith, find-at channel j [] m, eq_iff channel j)

  monitor_event-messages :
      (e : MonitorEvent pvac) (m : ChannelTopicsMap)
      → (monitor_event pvac value_of e m).0
        ≡ messages_for (λ j. topics_of j m) e.type e.channel_name e.payload
  unfolding monitor_event
  monitor_event-messages e m = ground (arith, at-eq-get_or e.channel_name [] m)

  topics_of-monitor_event :
      (e : MonitorEvent pvac) (m : ChannelTopicsMap) (j : String)
      → topics_of j (monitor_event pvac value_of e m).1 ≡ topics_of j m
  unfolding monitor_event
  topics_of-monitor_event e m j = ground (arith, topics_of-at e.channel_name j m)

  -- A delivery of events publishes, for each data event in turn, one message to each topic of the
  -- event's channel, in the order of the topics, with the channel as the distribution key and the
  -- value's text as the content; other events publish nothing. The topics stay as they are.
  pub epics_monitor_event-all_messages :
      (es : List (MonitorEvent pvac)) (m : ChannelTopicsMap)
      → ((epics_monitor_event pvac value_of es m).0 ≡ all_messages (λ j. topics_of j m) es)
        × ((j : String) → topics_of j (epics_monitor_event pvac value_of es m).1 ≡ topics_of j m)
  unfolding epics_monitor_event
  epics_monitor_event-all_messages [] m = (refl, λ j. refl)
  epics_monitor_event-all_messages (e ∷ es) m =
      let (sent, kept) = epics_monitor_event-all_messages es (monitor_event pvac value_of e m).1 in
      let same : ◌≡◌ {A = String → List String}
          (λ j. topics_of j (monitor_event pvac value_of e m).1) (λ j. topics_of j m) =
        fun_ext (topics_of-monitor_event e m) in
      (
        ap₂ (◌++◌) (monitor_event-messages e m) (sent ∙ ap (λ t. all_messages t es) same),
        λ j. kept j ∙ topics_of-monitor_event e m j,
      )

All-has :
    (P : String → Type 0) (ts : List String) → ((t : String) → has t ts ≡ true → P t) → All P ts
All-has P [] h = tt
All-has P (t ∷ ts) h = (h t (ground (arith, ==_refl t)), All-has P ts (λ u m. h u (ground arith)))

module _ (pvac : Pvac) (value_of : Option (Pvac.Structure pvac) → String)
    (P : String → String → Type 0) (topics : String → List String)
    (holds : (channel topic : String) → has topic (topics channel) ≡ true → P channel topic) where
  All-messages_for :
      (type : MonitorType) (channel : String) (payload : Option (Pvac.Structure pvac))
      → All
          (λ m. P m.distribution_key m.queue)
          (messages_for pvac value_of topics type channel payload)
  unfolding monitor_message
  All-messages_for fresh_data channel payload =
      All-map _ _ (topics channel) (All-has _ (topics channel) (holds channel))
  All-messages_for fail channel payload = tt
  All-messages_for cancel channel payload = tt
  All-messages_for disconnec channel payload = tt

  -- What holds of each channel with each of its topics holds of the messages.
  pub All-all_messages :
      (es : List (MonitorEvent pvac))
      → All (λ m. P m.distribution_key m.queue) (all_messages pvac value_of topics es)
  All-all_messages [] = tt
  All-all_messages (e ∷ es) =
      All-append _ _ _ (All-messages_for e.type e.channel_name e.payload) (All-all_messages es)
