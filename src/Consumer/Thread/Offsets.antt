-- ===== src/Consumer/Thread/Offsets.antt =====
-- Which of the fetched messages the thread of the command controller commits.
use ekg.Prelude.{
  ℕ, zero, suc, ◌+◌, ◌≤◌, ◌≡◌, ◌≢◌, refl, List, [], ◌∷◌, ◌++◌, length, arith, inl, inr, ◌⊎◌,
}
use ekg.Common.Outcome.{Outcome, ok, throws, undefined}
use ekg.Common.Log.{LogLine}
use ekg.Command.Types.{Command}
use ekg.Consumer.{
  Element, JsonLibrary, Subscriber, handle_batch, consume_round, dispatch, call_handler,
  then_commit, catch_all, on_messages,
}
use ekg.Consumer.Thread.{consume, next_round, after_rounds}

module _ {W : Type 0} (json : JsonLibrary) (subscriber : Subscriber W)
    (cmd_handler : List Command → W → Outcome (Unit {0}) × W) where
  -- One more round in front.
  pub consume-suc :
      (n : ℕ) (w v u : W) (log lines : List LogLine)
      → consume_round json subscriber cmd_handler w ≡ (ok log, v)
      → consume json subscriber cmd_handler n v ≡ (ok lines, u)
      → consume json subscriber cmd_handler (suc n) w ≡ (ok (log ++ lines), u)
  unfolding consume next_round after_rounds
  consume-suc n w v u log lines e k = rw (e, k) refl

  pub consume-zero : (w : W) → consume json subscriber cmd_handler zero w ≡ (ok [], w)
  unfolding consume
  consume-zero w = refl

module _ {W : Type 0} (json : JsonLibrary) (subscriber : Subscriber W)
    (cmd_handler : List Command → W → Outcome (Unit {0}) × W) where
  module _ (P : W → Type 0) (fetch : (w : W) → P w → P (subscriber.get_msg w).1)
      (handle : (cs : List Command) (w : W) → P w → P (cmd_handler cs w).1)
      (commit : (w : W) → P w → P (subscriber.commit w).1) where
    call_handler-keeps :
        (cs : List Command) (w : W) → P w → P (call_handler json subscriber cmd_handler cs w).1
    unfolding call_handler
    call_handler-keeps [] w p = p
    call_handler-keeps (c ∷ cs) w p = handle (c ∷ cs) w p

    then_commit-keeps :
        (r : Outcome (Unit {0}) × W) → P r.1 → P (then_commit json subscriber cmd_handler r).1
    unfolding then_commit
    then_commit-keeps (ok u, w) p = commit w p
    then_commit-keeps (throws e, w) p = p
    then_commit-keeps (undefined u, w) p = p

    catch_all-keeps :
        (log : List LogLine) (r : Outcome (Unit {0}) × W)
        → P r.1
        → P (catch_all json subscriber cmd_handler log r).1
    unfolding catch_all
    catch_all-keeps log (ok u, w) p = p
    catch_all-keeps log (throws e, w) p = p
    catch_all-keeps log (undefined u, w) p = p

    dispatch-keeps :
        (b : Outcome (List Command) × List LogLine) (w : W)
        → P w
        → P (dispatch json subscriber cmd_handler b w).1
    unfolding dispatch
    dispatch-keeps (ok cs, log) w p =
        catch_all-keeps log _ (then_commit-keeps _ (call_handler-keeps cs w p))
    dispatch-keeps (throws e, log) w p = p
    dispatch-keeps (undefined u, log) w p = p

    on_messages-keeps :
        (ms : List Element) (w : W) → P w → P (on_messages json subscriber cmd_handler ms w).1
    unfolding on_messages
    on_messages-keeps [] w p = p
    on_messages-keeps (m ∷ ms) w p = dispatch-keeps (handle_batch json (m ∷ ms)) w p

    consume_round-keeps : (w : W) → P w → P (consume_round json subscriber cmd_handler w).1
    unfolding consume_round
    consume_round-keeps w p =
        on_messages-keeps (subscriber.get_msg w).0 (subscriber.get_msg w).1 (fetch w p)

    next_round-keeps :
        (rest : W → Outcome (List LogLine) × W) (r : Outcome (List LogLine) × W)
        → ((w : W) → P w → P (rest w).1)
        → P r.1
        → P (next_round json subscriber cmd_handler rest r).1
    unfolding next_round after_rounds
    next_round-keeps rest (ok log, w) k p = k w p
    next_round-keeps rest (throws e, w) k p = p
    next_round-keeps rest (undefined u, w) k p = p

    -- What fetching, handling and committing keep, the thread keeps.
    pub consume-keeps : (n : ℕ) (w : W) → P w → P (consume json subscriber cmd_handler n w).1
    unfolding consume
    consume-keeps zero w p = p
    consume-keeps (suc n) w p =
        next_round-keeps (consume json subscriber cmd_handler n) _ (consume-keeps n)
          (consume_round-keeps w p)

-- What the code relies on in the client: fetching advances the position of the consumer by the
-- number of messages, and a commit, which names no messages, is asked for the whole position.
-- `requested` is the last position for which the client took a request to commit; with the
-- asynchronous commit that the thread uses, the broker may not have answered it.
pub record Offsets {W : Type 0} (subscriber : Subscriber W)
    (cmd_handler : List Command → W → Outcome (Unit {0}) × W) : Type 0 where
  pub position : W → ℕ
  pub requested : W → ℕ
  pub position-get_msg :
      (w : W) → position (subscriber.get_msg w).1 ≡ position w + length (subscriber.get_msg w).0
  pub requested-get_msg : (w : W) → requested (subscriber.get_msg w).1 ≡ requested w
  pub position-commit : (w : W) → position (subscriber.commit w).1 ≡ position w
  pub requested-commit :
      (w : W) → (subscriber.commit w).0 ≡ ok tt → requested (subscriber.commit w).1 ≡ position w
  pub commit_fails :
      (w : W) → (subscriber.commit w).0 ≢ ok tt → requested (subscriber.commit w).1 ≡ requested w
  pub position-handler : (cs : List Command) (w : W) → position (cmd_handler cs w).1 ≡ position w
  pub requested-handler : (cs : List Command) (w : W) → requested (cmd_handler cs w).1 ≡ requested w

returns_or_not : (o : Outcome (Unit {0})) → (o ≡ ok tt) ⊎ (o ≢ ok tt)
returns_or_not (ok u) = inl refl
returns_or_not (throws e) = inr (λ h. cc)
returns_or_not (undefined u) = inr (λ h. cc)

module _ {W : Type 0} (json : JsonLibrary) (subscriber : Subscriber W)
    (cmd_handler : List Command → W → Outcome (Unit {0}) × W)
    (offsets : Offsets subscriber cmd_handler) where
  open offsets use {
    position, requested, position-get_msg, requested-get_msg, position-commit, requested-commit,
    commit_fails, position-handler, requested-handler,
  }

  -- Whatever the messages, the handler and the commits do: the thread never asks to commit a message
  -- that it has not fetched, and what it asks never goes back.
  pub consume-requested :
      (n : ℕ) (w : W)
      → requested w ≤ position w
      → (requested w ≤ requested (consume json subscriber cmd_handler n w).1)
        × (requested (consume json subscriber cmd_handler n w).1
            ≤ position (consume json subscriber cmd_handler n w).1)
  consume-requested n w h =
      consume-keeps json subscriber cmd_handler
        (λ v. (requested w ≤ requested v) × (requested v ≤ position v))
        (λ v p. ground (arith, position-get_msg v, requested-get_msg v))
        (λ cs v p. ground (arith, position-handler cs v, requested-handler cs v))
        (λ v p. elim (returns_or_not (subscriber.commit v).0) [
          | inl e ↦ ground (arith, position-commit v, requested-commit v e)
          | inr e ↦ ground (arith, position-commit v, commit_fails v e)
        ])
        n w (omega arith, h)
