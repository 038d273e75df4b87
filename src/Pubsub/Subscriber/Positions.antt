-- ===== src/Pubsub/Subscriber/Positions.antt =====
-- Where the consumer stands in its queue: `getMsg` loses no message.
use ekg.Prelude.{
  ℕ, zero, suc, ◌+◌, ◌≡◌, ◌≢◌, refl, ap, ◌∙◌, Bool, Option, none, some, List, [], ◌∷◌, ◌++◌, arith,
  Bool-cases, inl, inr, length, length-append, subst, ltb,
}
use ekg.Consumer.{Element}
use ekg.Pubsub.Subscriber.{
  ErrorCode, no_error, partition_eof, timed_out, timed_out_queue, other_error, KafkaMessage,
  KafkaConsumer, go_on, turn, element_of, after_turn, after_consume, get_msg,
}
use ekg.Pubsub.Subscriber.Fetching.{AlwaysAnswers, get_msg_returns}

-- How many messages an answer of the consumer hands out.
abbrev pub handed_code : ErrorCode → ℕ
handed_code no_error = 1
handed_code _ = 0

abbrev pub handed : Option KafkaMessage → ℕ
handed none = 0
handed (some m) = handed_code m.err

module _ {W : Type 0} (consumer : KafkaConsumer W) where
  open consumer use {consume, commit_sync, commit_async, is_past_end}

  -- Handing out a message advances the position of the consumer, and nothing else does.
  pub record Position : Type 0 where
    pub position : W → ℕ
    pub position-consume :
        (t : ℕ) (w : W) → position (consume t w).1 ≡ position w + handed (consume t w).0

  -- What the thread of the command controller relies on besides: with "enable.auto.commit" off,
  -- consuming asks for no commit, and `requested`, the last position for which the client took a
  -- request to commit, becomes the position when `commitAsync` takes one.
  pub record Positions : Type 0 where
    pub place : Position
    pub requested : W → ℕ
    pub requested-consume : (t : ℕ) (w : W) → requested (consume t w).1 ≡ requested w
    pub position-async :
        (w : W) → Position.position place (commit_async w).1 ≡ Position.position place w
    pub requested-async :
        (w : W)
        → (commit_async w).0 ≡ no_error
        → requested (commit_async w).1 ≡ Position.position place w
    pub async_fails :
        (w : W) → (commit_async w).0 ≢ no_error → requested (commit_async w).1 ≡ requested w

  module _ (at : Position) (requested : W → ℕ)
      (requested-consume : (t : ℕ) (w : W) → requested (consume t w).1 ≡ requested w) where
    open at use {position, position-consume}

    -- From a position and a committed offset, with some messages there already.
    abbrev Advances : ℕ → ℕ → List Element → Option (Bool × List Element × W) → Type 0
    Advances p c before none = Unit
    Advances p c before (some (fine, after, w')) =
        (position w' + length before ≡ p + length after) × (requested w' ≡ c)

    further :
        (p c p' : ℕ) (before ms : List Element) (r : Option (Bool × List Element × W))
        → p' + length before ≡ p + length ms
        → Advances p' c ms r
        → Advances p c before r
    further p c p' before ms none e a = tt
    further p c p' before ms (some (fine, after, w')) e (a, k) = (omega arith, k)

    go_on-Advances :
        (p c : ℕ) (before ms : List Element) (timeout : ℕ) (w : W)
        (rest : List Element → ℕ → W → Option (Bool × List Element × W))
        → position w + length before ≡ p + length ms
        → requested w ≡ c
        → Advances (position w) c ms (rest ms timeout w)
        → Advances p c before (after_turn consumer (go_on ms timeout) before w rest)
    unfolding after_turn
    go_on-Advances p c before ms timeout w rest e k a = elim (Bool-cases (is_past_end w)) [
      | inl past ↦ rw past (e, k)
      | inr early ↦ rw early (further p c (position w) before ms (rest ms timeout w) e a)
    ]

    turn-Advances :
        (code : ErrorCode) (m : KafkaMessage) (p c : ℕ) (before : List Element) (timeout : ℕ)
        (w : W) (rest : List Element → ℕ → W → Option (Bool × List Element × W))
        → position w ≡ p + handed_code code
        → requested w ≡ c
        → ((ms : List Element) (t : ℕ) → Advances (position w) c ms (rest ms t w))
        → Advances p c before (after_turn consumer (turn code m before timeout) before w rest)
    unfolding turn after_turn
    turn-Advances partition_eof m p c [] timeout w rest e k a =
        go_on-Advances p c [] [] timeout w rest (omega arith) k (a [] timeout)
    turn-Advances partition_eof m p c (x ∷ xs) timeout w rest e k a =
        go_on-Advances p c (x ∷ xs) (x ∷ xs) 1 w rest (omega arith) k (a (x ∷ xs) 1)
    turn-Advances no_error m p c before timeout w rest e k a =
        go_on-Advances p c before (before ++ element_of m ∷ []) timeout w rest
          (omega (arith, length-append before (element_of m ∷ []))) k (a _ timeout)
    turn-Advances timed_out m p c before timeout w rest e k a = (omega arith, k)
    turn-Advances timed_out_queue m p c before timeout w rest e k a = (omega arith, k)
    turn-Advances other_error m p c [] timeout w rest e k a = (omega arith, k)
    turn-Advances other_error m p c (x ∷ xs) timeout w rest e k a = (omega arith, k)

    after_consume-Advances :
        (o : Option KafkaMessage) (p c : ℕ) (before : List Element) (timeout : ℕ) (w : W)
        (rest : List Element → ℕ → W → Option (Bool × List Element × W))
        → position w ≡ p + handed o
        → requested w ≡ c
        → ((ms : List Element) (t : ℕ) → Advances (position w) c ms (rest ms t w))
        → Advances p c before (after_consume consumer o before timeout w rest)
    unfolding after_consume
    after_consume-Advances none p c before timeout w rest e k a =
        further p c (position w) before before _ (omega arith) (a before timeout)
    after_consume-Advances (some m) p c before timeout w rest e k a =
        turn-Advances m.err m p c before timeout w rest e k a

    get_msg-Advances :
        (n m_num : ℕ) (before : List Element) (timeout : ℕ) (w : W)
        → Advances (position w) (requested w) before (get_msg consumer n m_num before timeout w)
    unfolding get_msg
    get_msg-Advances zero m_num before timeout w = tt
    get_msg-Advances (suc n) m_num before timeout w =
        elim (Bool-cases (ltb (length before) m_num)) [
          | inr full ↦ rw full (refl, refl)
          | inl room ↦ rw room (
              after_consume-Advances (consume timeout w).0 (position w) (requested w) before timeout
                (consume timeout w).1 (get_msg consumer n m_num) (position-consume timeout w)
                (requested-consume timeout w)
                (λ ms t.
                  subst
                    (λ c.
                      Advances (position (consume timeout w).1) c ms
                        (get_msg consumer n m_num ms t (consume timeout w).1))
                    (requested-consume timeout w)
                    (get_msg-Advances n m_num ms t (consume timeout w).1)))
        ]

    -- What is asked to be committed stays, whatever `requested` is.
    pub get_msg-requested :
        (m_num : ℕ) (before : List Element) (timeout : ℕ) (w : W)
        → AlwaysAnswers consumer
        → (fine : Bool) × (new : List Element) × (w' : W) × (get_msg consumer
              (suc m_num)
              m_num
              before
              timeout
              w
            ≡ some (fine, before ++ new, w'))
          × (position w' ≡ position w + length new)
          × (requested w' ≡ requested w)
    get_msg-requested m_num before timeout w ans =
        let (fine, after, w', e, new, grown, _, _) =
          get_msg_returns consumer (suc m_num) m_num before timeout w ans (omega arith)
            (omega arith) in
        let (a, k) =
          subst (Advances (position w) (requested w) before) e
            (get_msg-Advances (suc m_num) m_num before timeout w) in
        let counted = ap length grown ∙ length-append before new in
        (fine, new, w', e ∙ ap (λ l. some (fine, l, w')) grown, omega (arith, counted), k)

  module _ (at : Position) where
    open at use {position}

    -- If the consumer always answers, `getMsg` returns, and the messages that it adds are as many
    -- as the consumer's position advances: none that the consumer handed out is left out.
    pub get_msg-position :
        (m_num : ℕ) (before : List Element) (timeout : ℕ) (w : W)
        → AlwaysAnswers consumer
        → (fine : Bool) × (new : List Element) × (w' : W) × (get_msg consumer
              (suc m_num)
              m_num
              before
              timeout
              w
            ≡ some (fine, before ++ new, w'))
          × (position w' ≡ position w + length new)
    get_msg-position m_num before timeout w ans =
        let (fine, new, w', e, p, _) =
          get_msg-requested at (λ v. 0) (λ t v. refl) m_num before timeout w ans in
        (fine, new, w', e, p)
