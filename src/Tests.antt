-- ===== src/Tests.antt =====
-- Concrete instances of the parameters: small stand-ins for the client libraries, on which the
-- theorems are applied in the child modules.
mod Commands
mod Monitoring
mod Storage
mod Kafka
mod Services
mod Overlap
mod Pipeline
mod Delivery
mod Thread
mod Positions
mod Logger
mod Options
mod System
mod Memory
use ekg.Prelude.{
  ℕ, suc, ◌≡◌, refl, String, Bool, true, false, not, Option, none, some, List, [], ◌∷◌, ◌++◌,
  length, filter, any, map, ltb, String_key, ◌==◌, if◌then◌else◌, arith, ◌∙◌, ◌||◌, subst,
  Bool-cases, inl, inr, eq_iff,
}
use ekg.Common.Outcome.{Outcome, ok, throws, runtime_error}
use ekg.Command.Json.{Value, Object, member, empty}
use ekg.Command.Types.{
  CommandBase, Command, CommandType, get, monitor, get_command, aquire_command, AquireFields,
}
use ekg.Consumer.{Element, JsonLibrary, Subscriber}
use ekg.Epics.Channel.{Pvac, PvacEvent, EpicsChannel}
use ekg.Epics.Manager.{Manager}
use ekg.Node.Worker.{WorkerState, MonitorMessage}
use ekg.Data.Orm.{Orm, ChannelMonitorType, pos, negsuc, names, same_names}
use ekg.Pubsub.Publisher.{Producer}
use ekg.Pubsub.Subscriber.{KafkaMessage, KafkaConsumer, no_error, timed_out}

abbrev pub get_request : Object
get_request = member "command" (Value.text "get") (
    member "protocol" (Value.text "pva") (
      member "channel_name" (Value.text "channel:a")
        (member "dest_topic" (Value.text "out") empty)))

-- A put without its value.
abbrev pub short_request : Object
short_request =
    member "command" (Value.text "put")
      (member "protocol" (Value.text "pva") (member "channel_name" (Value.text "channel:a") empty))

abbrev pub get_base : CommandBase
get_base = record { type = get; protocol = "pva"; channel_name = "channel:a" }

abbrev pub get_channel_a : Command
get_channel_a = get_command get_base "out"

abbrev pub monitor_base : CommandBase
monitor_base = record { type = monitor; protocol = "pva"; channel_name = "channel:a" }

abbrev pub serialize : Object → String
serialize obj = "object"

-- It reads one text, and refuses the others.
abbrev pub json : JsonLibrary
json = record {
  parse_text = λ text.
      if text == "get" then (Value.object get_request, none) else (Value.null, some "syntax error");
  serialize = serialize;
}

abbrev pub element : String → Element
element text = record { key = "key"; data_len = 3; content = text }

-- A world that counts the commits.
abbrev pub subscriber : Subscriber ℕ
subscriber = record { get_msg = λ w. (element "get" ∷ [], w); commit = λ w. (ok tt, suc w) }

-- A subscription is the list of its updates; the channel "bad" is refused.
abbrev pub next_update : List ℕ → Option ℕ × List ℕ
next_update [] = (none, [])
next_update (d ∷ ds) = (some d, ds)

pub next_update_empty : (s : List ℕ) → s ≡ [] → (next_update s).0 ≡ none
next_update_empty [] h = refl
next_update_empty (d ∷ ds) h = cc

pub next_update_next :
    (s : List ℕ) (d : ℕ) (ds : List ℕ)
    → s ≡ d ∷ ds
    → ((next_update s).0 ≡ some d) × ((next_update s).1 ≡ ds)
next_update_next [] d ds h = cc
next_update_next (e ∷ es) d ds h = (cc, cc)

abbrev pub pvac : Pvac
pvac = record {
  Subscription = List ℕ;
  Structure = ℕ;
  event = λ s. PvacEvent.fresh;
  message = λ s. "";
  served = λ s. s;
  wait = λ s. (true, s);
  poll = next_update;
  poll_empty = next_update_empty;
  poll_next = next_update_next;
  Provider = String;
  Client = String;
  open_provider = ok;
  connect_to =
      λ p name address. if name == "bad" then throws (runtime_error "not connected") else ok name;
  subscribe = λ c. ok (1 ∷ 2 ∷ []);
}

-- The channel "channel:a" with two updates that wait.
abbrev pub channel_a : EpicsChannel pvac
channel_a = record {
  channel_name = "channel:a";
  address = "";
  provider = "pva";
  channel = some "channel:a";
  mon = some (1 ∷ 2 ∷ []);
}

-- Handlers are numbers, of which 7 has lost its token; the world lists who was called.
abbrev pub is_live : List ℕ → ℕ → Bool
is_live w h = if ltb h 7 then true else false

abbrev pub manager : Manager pvac ℕ
manager = record { channel_map = ("channel:a", channel_a) ∷ []; targets = 1 ∷ 7 ∷ 2 ∷ [] }

abbrev pub idle_manager : Manager pvac ℕ
idle_manager = record { channel_map = []; targets = [] }

abbrev pub worker : WorkerState pvac ℕ
worker = record { channel_topics_map = []; epics_service_manager = idle_manager; log = [] }

abbrev pub acquire : String → Bool → String → AquireFields
acquire channel activate topic = record {
  channel_name = channel;
  protocol = "pva";
  activate = activate;
  destination_topic = topic;
}

-- The pairs without repetition, each at its last place.
abbrev distinct : List (String × String) → List (String × String)
distinct [] = []
distinct (n ∷ ns) =
    let rest = distinct ns in if any (λ m. same_names m n) ns then rest else n ∷ rest

same_names_eq : (n k : String × String) → same_names n k ≡ true → n ≡ k
same_names_eq (a, b) (c, d) h =
    let first : a ≡ c = ground (arith, eq_iff a c) in
    let second : b ≡ d = ground (arith, eq_iff b d) in λ i. (first i, second i)

any-absorbs :
    (n k : String × String) (ns : List (String × String))
    → any (λ m. same_names m n) ns ≡ true
    → any (λ m. same_names m k) ns ≡ (same_names n k || any (λ m. same_names m k) ns)
any-absorbs n k ns e = elim (Bool-cases (same_names n k)) [
  | inl h ↦ rw h (subst (λ x. any (λ m. same_names m x) ns ≡ true) (same_names_eq n k h) e)
  | inr h ↦ rw h
]

pub any-distinct :
    (ns : List (String × String)) (k : String × String)
    → any (λ m. same_names m k) (distinct ns) ≡ any (λ m. same_names m k) ns
any-distinct [] k = refl
any-distinct (n ∷ ns) k = elim (Bool-cases (any (λ m. same_names m n) ns)) [
  | inl e ↦ rw e (any-distinct ns k ∙ any-absorbs n k ns e)
  | inr e ↦ rw (e, any-distinct ns k)
]

pub any-map-names :
    (d : List ChannelMonitorType) (n : String × String)
    → any (λ m. same_names m n) (map names d) ≡ any (λ r. same_names (names r) n) d
any-map-names [] n = refl
any-map-names (r ∷ d) n = rw (any-map-names d n)

-- A table is its rows.
abbrev pub orm : Orm
orm = record {
  Db = List ChannelMonitorType;
  rows = λ d. d;
  next_id = λ d. pos (length d);
  insert = λ r d. d ++ record r { id = pos (length d) } ∷ [];
  count = λ p d. length (filter p d);
  get_all = filter;
  remove_all = λ p d. filter (λ r. not (p r)) d;
  select_distinct = λ d. distinct (map names d);
  rows-insert = λ r d. refl;
  count-rows = λ p d. refl;
  get_all-rows = λ p d. refl;
  rows-remove_all = λ p d. refl;
  select_distinct-rows = λ d n. any-distinct (map names d) n ∙ any-map-names d n;
}

abbrev pub row : String → String → ChannelMonitorType
row protocol topic = record {
  id = negsuc 0;
  channel_name = "channel:a";
  channel_protocol = protocol;
  channel_destination = topic;
}

abbrev pub message : String → MonitorMessage
message text = record {
  request_type = "monitoring";
  distribution_key = "channel:a";
  queue = "out";
  message = text;
}

-- A producer with room for two messages, whose poll serves the oldest.
abbrev pub served : List MonitorMessage → List MonitorMessage
served [] = []
served (m ∷ ms) = ms

abbrev pub producer : Producer (List MonitorMessage)
producer = record {
  produce = λ m w. if ltb (length w) 2 then (true, w ++ m ∷ []) else (false, w);
  outq_len = length;
  poll = λ timeo w. served w;
}

-- A consumer over the texts of the messages that wait.
abbrev pub kafka_message : String → KafkaMessage
kafka_message text = record { err = no_error; key = none; len = 3; payload = text }

abbrev pub fetched : List String → Option KafkaMessage × List String
fetched [] = (some (record { err = timed_out; key = none; len = 0; payload = "" }), [])
fetched (text ∷ ts) = (some (kafka_message text), ts)

abbrev pub consumer : KafkaConsumer (List String)
consumer = record {
  consume = λ timeout w. fetched w;
  subscribe = λ queue w. (no_error, w);
  commit_sync = λ w. (no_error, w);
  commit_async = λ w. (no_error, w);
  err2str = λ err. "error";
  is_past_end = λ w. false;
}
