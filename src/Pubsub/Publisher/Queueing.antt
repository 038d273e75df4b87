-- ===== src/Pubsub/Publisher/Queueing.antt =====
-- What is handed to the producer, and what a vector of messages becomes.
use ekg.Prelude.{
  ◌≡◌, refl, sym, ap, ◌∙◌, true, false, Option, none, some, List, [], ◌∷◌, ◌++◌, map, Bool-cases,
  inl, inr, ◌⊎◌,
}
use ekg.Common.Outcome.{ok, undefined}
use ekg.Node.Worker.{MonitorMessage}
use ekg.Pubsub.Publisher.{Producer, push_messages}

module _ {W : Type 0} (producer : Producer W) where
  open producer use {produce, outq_len, poll}

  -- The messages handed to the producer in turn, whatever it answers.
  abbrev pub produce_all : List MonitorMessage → W → W
  produce_all [] w = w
  produce_all (m ∷ ms) w = produce_all ms (produce m w).1

  -- `pushMessages` hands the messages over in order. Either all are taken, and the vector is
  -- empty; or it stops behind the first that is refused, answers -1, and leaves a null pointer and
  -- the messages behind it.
  pub push_messages_cases :
      (ms : List MonitorMessage) (w : W)
      → (push_messages producer (map some ms) w ≡ (ok (true, []), produce_all ms w))
        ⊎ ((before : List MonitorMessage) × (m : MonitorMessage) × (after : List MonitorMessage)
            × (ms ≡ before ++ m ∷ after)
            × ((produce m (produce_all before w)).0 ≡ false)
            × (push_messages producer (map some ms) w
                ≡ (ok (false, none ∷ map some after), (produce m (produce_all before w)).1)))
  unfolding push_messages
  push_messages_cases [] w = inl refl
  push_messages_cases (m ∷ ms) w = elim (Bool-cases (produce m w).0) [
    | inr no_room ↦ inr ([], m, ms, refl, no_room, rw no_room)
    | inl taken ↦ elim (push_messages_cases ms (produce m w).1) [
      | inl done ↦ inl (rw (taken, done))
      | inr (before, x, after, e, refused, r) ↦
          inr (m ∷ before, x, after, ap (λ l. m ∷ l) e, refused, rw (taken, r))
    ]
  ]

  -- A vector that `pushMessages` left behind after a failure cannot be pushed again: the null
  -- pointer in front is dereferenced.
  pub push_messages_retry :
      (ms : List MonitorMessage) (w w' v : W) (rest : List (Option MonitorMessage))
      → push_messages producer (map some ms) w ≡ (ok (false, rest), w')
      → (push_messages producer rest v).0 ≡ undefined "null message"
  unfolding push_messages
  push_messages_retry ms w w' v rest h = elim (push_messages_cases ms w) [
    | inl done ↦ cc (sym done ∙ h)
    | inr (before, m, after, e, refused, r) ↦
        let left : rest ≡ none ∷ map some after = cc in rw left refl
  ]
