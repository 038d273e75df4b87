-- ===== src/Consumer/Batches.antt =====
-- What a round makes of the messages, and when it commits.
use ekg.Prelude.{
  ◌≡◌, ◌≢◌, refl, ap, ◌∙◌, String, Option, none, some, List, [], ◌∷◌, ◌++◌, nat_eq_iff, arith,
}
use ekg.Common.Outcome.{Exception, Outcome, ok, throws, undefined, ◌>>=◌}
use ekg.Common.Log.{LogLine, line, error}
use ekg.Command.Json.{Value, Object, as_object}
use ekg.Command.Types.{Command}
use ekg.Command.Parser.{Parsed}
use ekg.Command.Parser.Requests.{Describes, parse_iff}
use ekg.Consumer.{
  Element, JsonLibrary, Batch, caught, try_object, parse_error, handle_message, pushed, add_message,
  handle_batch, Subscriber, consume_round, dispatch, call_handler, then_commit, catch_all,
  on_messages,
}

module _ (json : JsonLibrary) where
  handle_message_filled :
      (m : Element)
      → m.data_len ≢ 0
      → handle_message json m
        ≡ caught json m (
            try_object json m
              (json.parse_text m.content).1
              (as_object (json.parse_text m.content).0))
  unfolding handle_message
  handle_message_filled m n = ground (arith, nat_eq_iff m.data_len 0)

  caught_ok :
      (m : Element) (r : Parsed) (x : Option Command) → r.0 ≡ ok x → (caught json m r).0 ≡ ok x
  unfolding caught
  caught_ok m (ok r, log) x h = h
  caught_ok m (throws e, log) x h = cc
  caught_ok m (undefined u, log) x h = cc

  -- A message that is not empty and whose text is a JSON object that describes a command gives
  -- that command.
  pub handle_message-Describes :
      (m : Element) (obj : Object) (c : Command)
      → m.data_len ≢ 0
      → json.parse_text m.content ≡ (Value.object obj, none)
      → Describes obj c
      → (handle_message json m).0 ≡ ok (some c)
  unfolding try_object as_object
  handle_message-Describes m obj c n p d =
      ap (λ r. r.0) (handle_message_filled m n)
      ∙ rw p (caught_ok m _ (some c) ((parse_iff json.serialize obj c).1 d))

  -- A message that is not empty and whose text is not JSON, so that the library returns a null
  -- value and sets the error code, gives no command and is logged with the message of the
  -- failed `as_object`: that of the error code is never used.
  pub handle_message_malformed :
      (m : Element) (text : String)
      → m.data_len ≢ 0
      → json.parse_text m.content ≡ (Value.null, some text)
      → handle_message json m ≡ (ok none, parse_error json "not an object" m ∷ [])
  unfolding try_object as_object caught
  handle_message_malformed m text n p = handle_message_filled m n ∙ rw p refl

  add_message_skip : (r : Parsed) (b : Batch) → r.0 ≡ ok none → (add_message r b).0 ≡ b.0
  unfolding add_message
  add_message_skip (ok none, log) (ok cs, logs) h = refl
  add_message_skip (ok none, log) (throws e, logs) h = refl
  add_message_skip (ok none, log) (undefined u, logs) h = refl
  add_message_skip (ok (some c), log) b h = cc
  add_message_skip (throws e, log) b h = cc
  add_message_skip (undefined u, log) b h = cc

  add_message_same :
      (r : Parsed) (b c : Batch) → b.0 ≡ c.0 → (add_message r b).0 ≡ (add_message r c).0
  unfolding add_message
  add_message_same (ok x, log) (b, _) (c, _) h = ap (λ o. o >>= λ cs. ok (pushed x ++ cs)) h
  add_message_same (throws e, log) b c h = refl
  add_message_same (undefined u, log) b c h = refl

  -- A message that gives no command, such as one that is empty or malformed, changes nothing of
  -- what the rest of the batch gives.
  pub handle_batch_skip :
      (before after : List Element) (m : Element)
      → (handle_message json m).0 ≡ ok none
      → (handle_batch json (before ++ m ∷ after)).0 ≡ (handle_batch json (before ++ after)).0
  unfolding handle_batch
  handle_batch_skip [] after m h =
      add_message_skip (handle_message json m) (handle_batch json after) h
  handle_batch_skip (b ∷ before) after m h =
      add_message_same (handle_message json b) (handle_batch json (before ++ m ∷ after))
        (handle_batch json (before ++ after)) (handle_batch_skip before after m h)

module _ {W : Type 0} (json : JsonLibrary) (subscriber : Subscriber W)
    (cmd_handler : List Command → W → Outcome (Unit {0}) × W) where
  -- How the log of a round ends: with one line more if something was thrown.
  abbrev pub round_log : Outcome (Unit {0}) → List LogLine → Outcome (List LogLine)
  round_log (ok u) log = ok log
  round_log (throws e) log = ok (log ++ line "Error occured during command processing" error ∷ [])
  round_log (undefined u) log = undefined u

  pub catch_all-round_log :
      (log : List LogLine) (r : Outcome (Unit {0}) × W)
      → catch_all json subscriber cmd_handler log r ≡ (round_log r.0 log, r.1)
  unfolding catch_all
  catch_all-round_log log (ok u, w) = refl
  catch_all-round_log log (throws e, w) = refl
  catch_all-round_log log (undefined u, w) = refl

  pub then_commit_returned :
      (r : Outcome (Unit {0}) × W)
      → r.0 ≡ ok tt
      → then_commit json subscriber cmd_handler r ≡ subscriber.commit r.1
  unfolding then_commit
  then_commit_returned (ok u, w) h = refl
  then_commit_returned (throws e, w) h = cc
  then_commit_returned (undefined u, w) h = cc

  then_commit_thrown :
      (r : Outcome (Unit {0}) × W) (e : Exception)
      → r.0 ≡ throws e
      → then_commit json subscriber cmd_handler r ≡ (throws e, r.1)
  unfolding then_commit
  then_commit_thrown (ok u, w) e h = cc
  then_commit_thrown (throws f, w) e h = ap (λ o. (o, w)) h
  then_commit_thrown (undefined u, w) e h = cc

  -- A round in which nothing is thrown.
  pub consume_round_returned :
      (w w1 w2 w3 : W) (m : Element) (ms : List Element) (cs : List Command)
      → subscriber.get_msg w ≡ (m ∷ ms, w1)
      → (handle_batch json (m ∷ ms)).0 ≡ ok cs
      → call_handler json subscriber cmd_handler cs w1 ≡ (ok tt, w2)
      → subscriber.commit w2 ≡ (ok tt, w3)
      → consume_round json subscriber cmd_handler w ≡ (ok (handle_batch json (m ∷ ms)).1, w3)
  unfolding consume_round on_messages dispatch then_commit catch_all
  consume_round_returned w w1 w2 w3 m ms cs g h k r = rw g (
      ap (λ o. dispatch json subscriber cmd_handler (o, (handle_batch json (m ∷ ms)).1) w1) h
      ∙ rw (k, r) refl)

  pub consume_round_empty :
      (w w1 : W)
      → subscriber.get_msg w ≡ ([], w1)
      → consume_round json subscriber cmd_handler w ≡ (ok [], w1)
  unfolding consume_round on_messages
  consume_round_empty w w1 g = rw g refl

  -- A round whose batch gives commands calls the handler with them. If the handler returns,
  -- `commit` is called on the world it leaves and the round ends as `commit` does; if the
  -- handler throws, nothing is committed. What either throws is logged and leaves no exception.
  pub consume_round_commits :
      (w w1 : W) (m : Element) (ms : List Element) (c : Command) (cs : List Command)
      (log : List LogLine)
      → subscriber.get_msg w ≡ (m ∷ ms, w1)
      → handle_batch json (m ∷ ms) ≡ (ok (c ∷ cs), log)
      → ((cmd_handler (c ∷ cs) w1).0 ≡ ok tt
          → consume_round json subscriber cmd_handler w ≡ (
            round_log (subscriber.commit (cmd_handler (c ∷ cs) w1).1).0 log,
            (subscriber.commit (cmd_handler (c ∷ cs) w1).1).1,
          ))
        × ((e : Exception)
            → (cmd_handler (c ∷ cs) w1).0 ≡ throws e
            → consume_round json subscriber cmd_handler w
              ≡ (round_log (throws e) log, (cmd_handler (c ∷ cs) w1).1))
  unfolding consume_round on_messages dispatch call_handler
  consume_round_commits w w1 m ms c cs log g h = (
    λ k.
        whole
        ∙ ap (catch_all json subscriber cmd_handler log) (then_commit_returned _ k)
        ∙ catch_all-round_log log _,
    λ e k.
        whole
        ∙ ap (catch_all json subscriber cmd_handler log) (then_commit_thrown _ e k)
        ∙ catch_all-round_log log (throws e, (cmd_handler (c ∷ cs) w1).1),
  )
    where
      whole :
          consume_round json subscriber cmd_handler w
          ≡ catch_all json subscriber cmd_handler log
              (then_commit json subscriber cmd_handler (cmd_handler (c ∷ cs) w1))
      whole = rw g (ap (λ b. dispatch json subscriber cmd_handler b w1) h)
