-- ===== src/Consumer/Returned.antt =====
-- The world behind a round whose handler returned, whatever the commit answers.
use ekg.Prelude.{◌≡◌, sym, ap, ◌∙◌, List, [], ◌∷◌, ◌⊎◌, inl, inr}
use ekg.Common.Log.{LogLine}
use ekg.Common.Outcome.{Outcome, ok, throws, undefined}
use ekg.Command.Types.{Command}
use ekg.Consumer.{
  Element, JsonLibrary, Subscriber, Batch, handle_batch, call_handler, then_commit, catch_all,
  dispatch, on_messages, consume_round,
}

module _ {W : Type 0} (json : JsonLibrary) (subscriber : Subscriber W)
    (cmd_handler : List Command → W → Outcome (Unit {0}) × W) where
  catch_all-world :
      (r : Outcome (Unit {0}) × W) (log log' : List LogLine) (w' : W)
      → catch_all json subscriber cmd_handler log r ≡ (ok log', w')
      → w' ≡ r.1
  unfolding catch_all
  catch_all-world (ok u, w) log log' w' e = cc
  catch_all-world (throws x, w) log log' w' e = cc
  catch_all-world (undefined u, w) log log' w' e = cc

  dispatch-world :
      (batch : Batch) (cs : List Command) (log' : List LogLine) (w w2 w' : W)
      → batch.0 ≡ ok cs
      → call_handler json subscriber cmd_handler cs w ≡ (ok tt, w2)
      → dispatch json subscriber cmd_handler batch w ≡ (ok log', w')
      → w' ≡ (subscriber.commit w2).1
  unfolding dispatch then_commit
  dispatch-world (ok ds, log) cs log' w w2 w' h k e =
      let same : ds ≡ cs = cc in
      let called : call_handler json subscriber cmd_handler ds w ≡ (ok tt, w2) =
        ap (λ x. call_handler json subscriber cmd_handler x w) same ∙ k in
      catch_all-world (subscriber.commit w2) log log' w' (
        sym (
          ap
            (λ r.
              catch_all json subscriber cmd_handler log (then_commit json subscriber cmd_handler r))
            called)
        ∙ e)
  dispatch-world (throws x, log) cs log' w w2 w' h k e = cc
  dispatch-world (undefined u, log) cs log' w w2 w' h k e = cc

  on_messages-world :
      (ms : List Element) (cs : List Command) (log : List LogLine) (w w2 w' : W)
      → (handle_batch json ms).0 ≡ ok cs
      → call_handler json subscriber cmd_handler cs w ≡ (ok tt, w2)
      → on_messages json subscriber cmd_handler ms w ≡ (ok log, w')
      → (w' ≡ w2) ⊎ (w' ≡ (subscriber.commit w2).1)
  unfolding on_messages call_handler handle_batch
  on_messages-world [] [] log w w2 w' h k e = inl cc
  on_messages-world [] (c ∷ cs) log w w2 w' h k e = cc
  on_messages-world (m ∷ ms) cs log w w2 w' h k e =
      inr (dispatch-world (handle_batch json (m ∷ ms)) cs log w w2 w' h k e)

  -- Behind a round that ends without an exception is the world that the handler left, or that
  -- behind the commit on it.
  pub consume_round-world :
      (w w2 w' : W) (cs : List Command) (log : List LogLine)
      → (handle_batch json (subscriber.get_msg w).0).0 ≡ ok cs
      → call_handler json subscriber cmd_handler cs (subscriber.get_msg w).1 ≡ (ok tt, w2)
      → consume_round json subscriber cmd_handler w ≡ (ok log, w')
      → (w' ≡ w2) ⊎ (w' ≡ (subscriber.commit w2).1)
  unfolding consume_round
  consume_round-world w w2 w' cs log h k e =
      on_messages-world (subscriber.get_msg w).0 cs log (subscriber.get_msg w).1 w2 w' h k e
