-- ===== src/Consumer.antt =====
-- controller/command/CMDController.h and CMDController.cpp: one round of the consuming thread. The
-- subscriber and the handler are parameters over a world `W`.
pub mod Batches
pub mod Described
pub mod Thread
pub mod Returned
use ekg.Prelude.{
  ℕ, ◌≡◌, refl, String, Bool, true, false, Option, none, some, List, [], ◌∷◌, ◌++◌, append_text,
  nat_eq, if◌then◌else◌,
}
use ekg.Common.Outcome.{
  Exception, runtime_error, std_error, foreign, Outcome, ok, throws, undefined, ◌>>=◌,
}
use ekg.Common.Log.{LogLine, line, error}
use ekg.Command.Json.{Value, Object, as_object}
use ekg.Command.Types.{Command}
use ekg.Command.Parser.{Parsed, parse}

-- SubscriberInterfaceElement of pubsub/ISubscriber.h.
pub record Element : Type 0 where
  pub key : String
  pub data_len : ℕ
  pub content : String

-- boost::json::parse(text, ec) with the message of `ec`, if it is set, and serialize.
pub record JsonLibrary : Type 0 where
  pub parse_text : String → Value × Option String
  pub serialize : Object → String

abbrev what : Exception → String
what (runtime_error s) = s
what (std_error s) = s
what foreign = ""

abbrev pub pushed : Option Command → List Command
pushed none = []
pushed (some c) = c ∷ []

abbrev pub Batch : Type 0
Batch = Outcome (List Command) × List LogLine

-- One message in front of the rest: an exception that it lets through ends the loop.
pub add_message : Parsed → Batch → Batch
add_message (ok c, log) (rs, logs) = (rs >>= λ cs. ok (pushed c ++ cs), log ++ logs)
add_message (throws e, log) rest = (throws e, log)
add_message (undefined u, log) rest = (undefined u, log)

module _ (json : JsonLibrary) where
  pub parse_error : String → Element → LogLine
  parse_error text m =
      line (append_text "Error: '" (append_text text (append_text "' parsing command: " m.content)))
        error

  -- catch (std::exception&): anything else leaves the loop over the messages.
  caught : Element → Parsed → Parsed
  unfolding parse_error
  caught m (ok r, log) = (ok r, log)
  caught m (throws foreign, log) = (throws foreign, log)
  caught m (throws (runtime_error s), log) = (ok none, log ++ parse_error s m ∷ [])
  caught m (throws (std_error s), log) = (ok none, log ++ parse_error s m ∷ [])
  caught m (undefined u, log) = (undefined u, log)

  -- The test of `ec` comes after `as_object`.
  try_object : Element → Option String → Outcome Object → Parsed
  unfolding parse_error
  try_object m ec (throws e) = (throws e, [])
  try_object m ec (undefined u) = (undefined u, [])
  try_object m (some text) (ok obj) = (ok none, parse_error text m ∷ [])
  try_object m none (ok obj) = parse json.serialize obj

  -- The lambda over one received message.
  unfoldable pub handle_message : Element → Parsed
  unfolding caught try_object
  handle_message m =
      let (v, ec) = json.parse_text m.content in
      let parsed = caught m (try_object m ec (as_object v)) in
      if nat_eq m.data_len 0 then (ok none, []) else parsed

  -- std::for_each over the batch: the commands in the order of their messages.
  unfoldable pub handle_batch : List Element → Batch
  unfolding add_message
  handle_batch [] = (ok [], [])
  handle_batch (m ∷ ms) = add_message (handle_message m) (handle_batch ms)

-- What one round does to the world, in order.
pub record Subscriber (W : Type 0) : Type 0 where
  pub get_msg : W → List Element × W
  pub commit : W → Outcome (Unit {0}) × W

module _ {W : Type 0} (json : JsonLibrary) (subscriber : Subscriber W)
    (cmd_handler : List Command → W → Outcome (Unit {0}) × W) where
  unfoldable pub call_handler : List Command → W → Outcome (Unit {0}) × W
  call_handler [] w = (ok tt, w)
  call_handler (c ∷ cs) w = cmd_handler (c ∷ cs) w

  pub then_commit : Outcome (Unit {0}) × W → Outcome (Unit {0}) × W
  then_commit (ok u, w) = subscriber.commit w
  then_commit (throws e, w) = (throws e, w)
  then_commit (undefined u, w) = (undefined u, w)

  -- catch (...)
  pub catch_all : List LogLine → Outcome (Unit {0}) × W → Outcome (List LogLine) × W
  catch_all log (ok u, w) = (ok log, w)
  catch_all log (throws e, w) =
      (ok (log ++ line "Error occured during command processing" error ∷ []), w)
  catch_all log (undefined u, w) = (undefined u, w)

  dispatch : Outcome (List Command) × List LogLine → W → Outcome (List LogLine) × W
  unfolding call_handler then_commit catch_all
  dispatch (ok cs, log) w = catch_all log (then_commit (call_handler cs w))
  dispatch (throws e, log) w = (throws e, w)
  dispatch (undefined u, log) w = (undefined u, w)

  on_messages : List Element → W → Outcome (List LogLine) × W
  unfolding dispatch
  on_messages [] w = (ok [], w)
  on_messages (m ∷ ms) w = dispatch (handle_batch json (m ∷ ms)) w

  -- One round of `consume`, with the lines that it logs.
  unfoldable pub consume_round : W → Outcome (List LogLine) × W
  unfolding on_messages
  consume_round w = let (ms, w') = subscriber.get_msg w in on_messages ms w'
