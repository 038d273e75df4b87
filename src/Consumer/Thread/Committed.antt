-- ===== src/Consumer/Thread/Committed.antt =====
-- A round that asks to commit more than it fetched.
use ekg.Prelude.{◌+◌, ◌≡◌, refl, sym, ap, ◌∙◌, List, [], ◌∷◌, ◌++◌, length}
use ekg.Common.Outcome.{Exception, Outcome, ok, throws}
use ekg.Common.Log.{LogLine}
use ekg.Command.Types.{Command}
use ekg.Consumer.{Element, JsonLibrary, Subscriber, handle_batch, consume_round}
use ekg.Consumer.Batches.{round_log, consume_round_commits}
use ekg.Consumer.Thread.{consume, next_round, after_rounds}
use ekg.Consumer.Thread.Offsets.{Offsets, consume-suc, consume-zero}

module _ {W : Type 0} (json : JsonLibrary) (subscriber : Subscriber W)
    (cmd_handler : List Command → W → Outcome (Unit {0}) × W)
    (offsets : Offsets subscriber cmd_handler) where
  open offsets use {
    position, requested, position-get_msg, requested-get_msg, position-commit, requested-commit,
    position-handler, requested-handler,
  }

  consume_one :
      (w v : W) (log : List LogLine)
      → consume_round json subscriber cmd_handler w ≡ (ok log, v)
      → consume json subscriber cmd_handler 1 w ≡ (ok (log ++ []), v)
  consume_one w v log e =
      consume-suc json subscriber cmd_handler 0 w v v log [] e
        (consume-zero json subscriber cmd_handler v)

  -- A round that fetches messages and whose handler throws asks for no commit; but when the next
  -- round fetches messages too, its handler returns and the client takes its request to commit,
  -- then what is asked to be committed are the messages of both rounds.
  pub failed_round_is_requested :
      (w w1 w2 : W) (m m' : Element) (ms ms' : List Element) (c c' : Command)
      (cs cs' : List Command) (log log' : List LogLine) (e : Exception)
      → subscriber.get_msg w ≡ (m ∷ ms, w1)
      → handle_batch json (m ∷ ms) ≡ (ok (c ∷ cs), log)
      → (cmd_handler (c ∷ cs) w1).0 ≡ throws e
      → subscriber.get_msg (cmd_handler (c ∷ cs) w1).1 ≡ (m' ∷ ms', w2)
      → handle_batch json (m' ∷ ms') ≡ (ok (c' ∷ cs'), log')
      → (cmd_handler (c' ∷ cs') w2).0 ≡ ok tt
      → (subscriber.commit (cmd_handler (c' ∷ cs') w2).1).0 ≡ ok tt
      → (requested (consume json subscriber cmd_handler 1 w).1 ≡ requested w)
        × (requested (consume json subscriber cmd_handler 2 w).1
            ≡ position w + length (m ∷ ms) + length (m' ∷ ms'))
  unfolding consume next_round after_rounds
  failed_round_is_requested w w1 w2 m m' ms ms' c c' cs cs' log log' e g h k g' h' k' r =
      let first =
        (consume_round_commits json subscriber cmd_handler w w1 m ms c cs log g h).1 e k in
      let second =
        (consume_round_commits json subscriber cmd_handler _ w2 m' ms' c' cs' log' g' h').0 k' in
      let second' =
        second
        ∙ ap
            (λ o. (
              round_log json subscriber cmd_handler o log',
              (subscriber.commit (cmd_handler (c' ∷ cs') w2).1).1,
            ))
            r in
      let fetched : (position w1 ≡ position w + length (m ∷ ms)) × (requested w1 ≡ requested w) = (
        ap (λ p. position p.1) (sym g) ∙ position-get_msg w ∙ ap (λ p. position w + length p.0) g,
        ap (λ p. requested p.1) (sym g) ∙ requested-get_msg w,
      ) in
      let again : position w2 ≡ position (cmd_handler (c ∷ cs) w1).1 + length (m' ∷ ms') =
        ap (λ p. position p.1) (sym g')
        ∙ position-get_msg _
        ∙ ap (λ p. position (cmd_handler (c ∷ cs) w1).1 + length p.0) g' in
      (
        ap requested (rw first refl) ∙ requested-handler (c ∷ cs) w1 ∙ fetched.1,
        ap (λ r. requested r.1)
              (consume-suc json subscriber cmd_handler 1 w _ _ _ _ first
                (consume_one _ _ _ second'))
            ∙ requested-commit _ r
            ∙ position-handler (c' ∷ cs') w2
            ∙ again
            ∙ ap (λ p. p + length (m' ∷ ms')) (position-handler (c ∷ cs) w1 ∙ fetched.0),
      )
