-- ===== src/Pubsub/Setup.antt =====
-- How the Kafka clients are made: RDKafkaBase.h, init of RDKafkaPublisher.cpp and of
-- RDKafkaSubscriber.cpp, and the polling thread of the publisher. The configuration object and the
-- factory are parameters over a world `W`.
pub mod Settings
pub mod AutoPoll
use ekg.Prelude.{
  ◌≡◌, String, Bool, true, false, Option, none, some, List, [], ◌∷◌, String_key, ◌==◌,
  if◌then◌else◌, append_text,
}
use ekg.Common.Outcome.{Outcome, ok, throws, undefined, runtime_error, std_error}

-- A setting's value: a text, or a pointer to an object.
pub data SettingValue : Type 0 where
  text : String → SettingValue
  pointer : SettingValue

-- `set` and `make` answer with the library's error text, if they fail.
pub record KafkaConf (W : Type 0) : Type 0 where
  pub set : String → SettingValue → W → Option String × W
  pub make : W → Option String × W

-- RdKafka::Conf::ConfType
pub data ConfType : Type 0 where
  conf_global conf_topic : ConfType

-- The two configuration objects of RDKafkaBase, of the library's type `H`.
pub record KafkaBase (H : Type 0) : Type 0 where
  pub conf : H
  pub t_conf : H

-- The constructor makes them in this order; `make` is RdKafka::Conf::create.
unfoldable pub create_base : {W H : Type 0} → (ConfType → W → H × W) → W → KafkaBase H × W
create_base make w =
    let (conf, w') = make conf_global w in
    let (t_conf, w'') = make conf_topic w' in (record { conf = conf; t_conf = t_conf }, w'')

abbrev pub creation_error : String → String
creation_error errstr = append_text "Error creating kafka producer (" (append_text errstr ")")

module _ {W : Type 0} (conf : KafkaConf W) where
  open conf use {set, make}

  -- An answer of the library, with what comes next.
  pub checked : Option String → W → Outcome (Unit {0}) × W → Outcome (Unit {0}) × W
  checked none w next = next
  checked (some errstr) w next = (throws (runtime_error (creation_error errstr)), w)

  -- A sequence of RDK_CONF_SET, and then the factory.
  pub apply_settings : List (String × SettingValue) → W → Outcome (Unit {0}) × W
  unfolding checked
  apply_settings [] w = checked (make w).0 (make w).1 (ok tt, (make w).1)
  apply_settings ((key, value) ∷ rest) w =
      let next = apply_settings rest (set key value w).1 in
      checked (set key value w).0 (set key value w).1 next

  unfoldable pub publisher_settings : String → List (String × SettingValue)
  publisher_settings server_address =
      ("bootstrap.servers", text server_address)
      ∷ ("compression.type", text "snappy")
      ∷ ("linger.ms", text "5")
      ∷ ("dr_cb", pointer)
      ∷ []

  -- `uuid` is the identifier that is generated for an empty group, `client` that of the client.
  unfoldable pub subscriber_settings :
      String → String → String → String → List (String × SettingValue)
  subscriber_settings server_address group_id uuid client =
      ("enable.partition.eof", text "false")
      ∷ ("bootstrap.servers", text server_address)
      ∷ ("group.id", text (if group_id == "" then uuid else group_id))
      ∷ ("client.id", text (append_text "ekg_consumer_" client))
      ∷ ("enable.auto.commit", text "false")
      ∷ ("auto.offset.reset", text "latest")
      ∷ ("default_topic_conf", pointer)
      ∷ []

  unfoldable pub init_publisher : String → W → Outcome (Unit {0}) × W
  unfolding apply_settings publisher_settings
  init_publisher server_address w = apply_settings (publisher_settings server_address) w

  unfoldable pub init_subscriber : String → String → String → String → W → Outcome (Unit {0}) × W
  unfolding apply_settings subscriber_settings
  init_subscriber server_address group_id uuid client w =
      apply_settings (subscriber_settings server_address group_id uuid client) w

-- The members of the publisher that its polling thread concerns.
pub record PollThread : Type 0 where
  pub stop_inner_thread : Bool
  pub auto_poll : Bool
  pub is_joinable : Bool

-- The constructor sets `_auto_poll` to false before `init` reads it.
pub start_poll : PollThread → PollThread
start_poll p = if p.auto_poll then record p { is_joinable = true } else p

unfoldable pub constructed : PollThread
unfolding start_poll
constructed =
    start_poll (record { stop_inner_thread = false; auto_poll = false; is_joinable = false })

unfoldable pub set_auto_poll : Bool → PollThread → PollThread
set_auto_poll autopoll p = record p { auto_poll = autopoll }

-- deinit: join throws std::system_error on a thread that is not joinable.
unfoldable pub deinit : PollThread → Outcome PollThread
deinit p =
    if p.auto_poll
    then (if p.is_joinable
        then ok (record p { stop_inner_thread = true; is_joinable = false })
        else throws (std_error "Invalid argument"))
    else ok p

-- setOption answers 0 whatever the library answers.
unfoldable pub set_option : {W : Type 0} → KafkaConf W → String → String → W → W
set_option conf key value w = (conf.set key (text value) w).1
