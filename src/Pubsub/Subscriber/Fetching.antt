-- ===== src/Pubsub/Subscriber/Fetching.antt =====
-- What `getMsg` returns.
use ekg.Prelude.{
  ℕ, zero, suc, ◌+◌, ◌≤◌, ◌<◌, ◌≡◌, ◌≢◌, refl, sym, ap, ◌∙◌, Bool, true, false, Option, none, some,
  List, [], ◌∷◌, ◌++◌, arith, Bool-cases, inl, inr, ◌⊎◌, length, length-append, Option-cases, subst,
  append_assoc, append-nil, ltb,
}
use ekg.Consumer.{Element}
use ekg.Pubsub.Subscriber.{
  ErrorCode, no_error, partition_eof, timed_out, timed_out_queue, other_error, KafkaMessage,
  KafkaConsumer, Turn, go_on, stop, turn, element_of, after_turn, after_consume, get_msg,
}

module _ {W : Type 0} (consumer : KafkaConsumer W) where
  open consumer use {consume, is_past_end}

  -- The messages that were there stay in front, at most `m_num` are there at the end unless more
  -- were there before, and an error is answered only with messages.
  abbrev pub Fetched : ℕ → List Element → Option (Bool × List Element × W) → Type 0
  Fetched m_num before none = Unit
  Fetched m_num before (some (fine, after, w)) =
      (new : List Element) × (after ≡ before ++ new)
      × ((length after ≤ m_num) ⊎ (new ≡ []))
      × (fine ≡ false → after ≢ [])

  TurnOk : List Element → Turn → Type 0
  TurnOk before (go_on ms timeout) =
      (new : List Element) × (ms ≡ before ++ new) × (length ms ≤ length before + 1)
  TurnOk before (stop failed) = failed ≡ true → before ≢ []

  turn-TurnOk :
      (code : ErrorCode) (m : KafkaMessage) (before : List Element) (timeout : ℕ)
      → TurnOk before (turn code m before timeout)
  unfolding turn TurnOk
  turn-TurnOk partition_eof m [] timeout = ([], refl, omega arith)
  turn-TurnOk partition_eof m (x ∷ xs) timeout = ([], sym (append-nil (x ∷ xs)), omega arith)
  turn-TurnOk no_error m before timeout =
      (element_of m ∷ [], refl, omega (arith, length-append before (element_of m ∷ [])))
  turn-TurnOk timed_out m before timeout = λ e. cc
  turn-TurnOk timed_out_queue m before timeout = λ e. cc
  turn-TurnOk other_error m [] timeout = λ e. cc
  turn-TurnOk other_error m (x ∷ xs) timeout = λ e. cc

  extend :
      (m_num : ℕ) (before ms new : List Element) (r : Option (Bool × List Element × W))
      → ms ≡ before ++ new
      → length ms ≤ m_num
      → Fetched m_num ms r
      → Fetched m_num before r
  extend m_num before ms new none e h f = tt
  extend m_num before ms new (some (fine, after, w)) e h (more, g, bound, failed) = (
    new ++ more,
    g ∙ ap (λ l. l ++ more) e ∙ append_assoc before new more,
    inl (within bound),
    failed,
  )
    where
      within : (length after ≤ m_num) ⊎ (more ≡ []) → length after ≤ m_num
      within (inl b) = b
      within (inr b) = omega (arith, ap length (g ∙ ap (λ l. ms ++ l) b ∙ append-nil ms))

  after_turn-Fetched :
      (m_num : ℕ) (before : List Element) (t : Turn) (w : W)
      (rest : List Element → ℕ → W → Option (Bool × List Element × W))
      → TurnOk before t
      → length before < m_num
      → ((ms : List Element) (timeout : ℕ) (v : W) → Fetched m_num ms (rest ms timeout v))
      → Fetched m_num before (after_turn consumer t before w rest)
  unfolding after_turn TurnOk
  after_turn-Fetched m_num before (stop failed) w rest ok h f =
      ([], sym (append-nil before), inr refl, λ e. ok (ground arith))
  after_turn-Fetched m_num before (go_on ms timeout) w rest (new, e, b) h f =
      elim (Bool-cases (is_past_end w)) [
        | inl past ↦ rw past (new, e, inl (omega arith), λ q. cc)
        | inr early ↦ rw early (extend m_num before ms new _ e (omega arith) (f ms timeout w))
      ]

  after_consume-Fetched :
      (m_num : ℕ) (before : List Element) (o : Option KafkaMessage) (timeout : ℕ) (w : W)
      (rest : List Element → ℕ → W → Option (Bool × List Element × W))
      → length before < m_num
      → ((ms : List Element) (t : ℕ) (v : W) → Fetched m_num ms (rest ms t v))
      → Fetched m_num before (after_consume consumer o before timeout w rest)
  unfolding after_consume
  after_consume-Fetched m_num before none timeout w rest h f = f before timeout w
  after_consume-Fetched m_num before (some m) timeout w rest h f =
      after_turn-Fetched m_num before _ w rest (turn-TurnOk m.err m before timeout) h f

  get_msg-Fetched :
      (n m_num : ℕ) (before : List Element) (timeout : ℕ) (w : W)
      → Fetched m_num before (get_msg consumer n m_num before timeout w)
  unfolding get_msg
  get_msg-Fetched zero m_num before timeout w = tt
  get_msg-Fetched (suc n) m_num before timeout w = elim (Bool-cases (ltb (length before) m_num)) [
    | inr full ↦ rw full ([], sym (append-nil before), inr refl, λ e. cc)
    | inl room ↦ rw room (
        after_consume-Fetched m_num before _ timeout _ (get_msg consumer n m_num) (ground arith)
          (get_msg-Fetched n m_num))
  ]

  -- With end-of-partition events switched off, each call of the consumer answers with a message or
  -- an error.
  abbrev pub AlwaysAnswers : Type 0
  AlwaysAnswers =
      (timeout : ℕ) (w : W)
      → (m : KafkaMessage) × ((consume timeout w).0 ≡ some m) × (m.err ≢ partition_eof)

  abbrev HasAnswer : Option (Bool × List Element × W) → Type 0
  HasAnswer r = r ≢ none

  after_turn-HasAnswer :
      (code : ErrorCode) (m : KafkaMessage) (before : List Element) (timeout : ℕ) (w : W)
      (rest : List Element → ℕ → W → Option (Bool × List Element × W))
      → code ≢ partition_eof
      → ((ms : List Element) (t : ℕ) (v : W)
          → length ms ≡ length before + 1
          → HasAnswer (rest ms t v))
      → HasAnswer (after_turn consumer (turn code m before timeout) before w rest)
  unfolding after_turn turn
  after_turn-HasAnswer partition_eof m before timeout w rest h f = absurd (h refl)
  after_turn-HasAnswer no_error m before timeout w rest h f = elim (Bool-cases (is_past_end w)) [
    | inl past ↦ rw past (λ e. cc)
    | inr early ↦ rw early (
        f (before ++ element_of m ∷ []) timeout w
          (omega (arith, length-append before (element_of m ∷ []))))
  ]
  after_turn-HasAnswer timed_out m before timeout w rest h f = λ e. cc
  after_turn-HasAnswer timed_out_queue m before timeout w rest h f = λ e. cc
  after_turn-HasAnswer other_error m [] timeout w rest h f = λ e. cc
  after_turn-HasAnswer other_error m (x ∷ xs) timeout w rest h f = λ e. cc

  get_msg-HasAnswer :
      (n m_num : ℕ) (before : List Element) (timeout : ℕ) (w : W)
      → AlwaysAnswers
      → m_num < length before + n
      → 0 < n
      → HasAnswer (get_msg consumer n m_num before timeout w)
  unfolding get_msg after_consume
  get_msg-HasAnswer zero m_num before timeout w ans h k = absurd (omega arith)
  get_msg-HasAnswer (suc n) m_num before timeout w ans h k =
      elim (Bool-cases (ltb (length before) m_num)) [
        | inr full ↦ rw full (λ e. cc)
        | inl room ↦
            let (m, got, code) = ans timeout w in
            rw (room, got, after_consume)
              (after_turn-HasAnswer m.err m before timeout (consume timeout w).1
                (get_msg consumer n m_num) code
                λ ms t v e. get_msg-HasAnswer n m_num ms t v ans (ground arith) (ground arith))
      ]

  -- If the consumer always answers, `getMsg` returns on fuel for one turn more than there are
  -- messages missing, or for more. The messages that were there stay in front; there are at most `m_num` then,
  -- unless there were more and none was added; and -1 is answered only with messages.
  pub get_msg_returns :
      (n m_num : ℕ) (before : List Element) (timeout : ℕ) (w : W)
      → AlwaysAnswers
      → m_num < length before + n
      → 0 < n
      → (fine : Bool) × (after : List Element) × (w' : W) × (get_msg consumer n m_num before timeout
            w
          ≡ some (fine, after, w'))
        × (new : List Element) × (after ≡ before ++ new)
        × ((length after ≤ m_num) ⊎ (new ≡ []))
        × (fine ≡ false → after ≢ [])
  get_msg_returns n m_num before timeout w ans enough some_fuel =
      elim (Option-cases (get_msg consumer n m_num before timeout w)) [
        | inl e ↦ absurd (get_msg-HasAnswer n m_num before timeout w ans enough some_fuel e)
        | inr ((fine, after, w'), e) ↦
            let f = subst (Fetched m_num before) e (get_msg-Fetched n m_num before timeout w) in
            (fine, after, w', e, f.0, f.1, f.2, f.3)
      ]
