-- ===== src/Pubsub/Publisher/Memory.antt =====
-- Who owns the messages: the unique pointers of RDKafkaPublisher.cpp, on a store of addresses. A
-- message that was taken belongs to the producer, as the opaque pointer of its delivery report,
-- until `dr_cb` gains it back.
pub mod Owners
pub mod Life
use ekg.Prelude.{
  ℕ, zero, suc, ◌≡◌, String, Bool, true, false, Option, none, some, List, [], ◌∷◌, ◌++◌, nat_eq,
  if◌then◌else◌,
}
use ekg.Common.Outcome.{Outcome, ok, throws, undefined}
use ekg.Node.Worker.{MonitorMessage}
use ekg.Pubsub.Publisher.{Producer, Callbacks, Status, EventType, dr_cb}

-- The objects at their addresses, and the addresses that the producer has yet to report.
pub record Store : Type 0 where
  pub cell : ℕ → Option MonitorMessage
  pub queued : List ℕ

-- std::make_unique, at an address that the allocator chose.
unfoldable pub make : ℕ → MonitorMessage → Store → Store
make p m h = record h { cell = λ a. if nat_eq p a then some m else h.cell a }

-- The destructor of a unique pointer.
unfoldable pub destroy : ℕ → Store → Store
destroy p h = record h { cell = λ a. if nat_eq p a then none else h.cell a }

-- The first report of this address that the producer has yet to make is made.
pub unqueue : ℕ → List ℕ → List ℕ
unqueue p [] = []
unqueue p (q ∷ qs) = let rest = unqueue p qs in if nat_eq p q then qs else q ∷ rest

module _ {W : Type 0} (producer : Producer W) where
  open producer use {produce}

  -- `message.release()` on success; on failure the pointer goes out of scope and destroys it.
  pub keep_or_destroy : ℕ → Bool → Store → Store
  unfolding destroy
  keep_or_destroy p true h = record h { queued = h.queued ++ p ∷ [] }
  keep_or_destroy p false h = destroy p h

  produced : ℕ → Option MonitorMessage → Store × W → Outcome Bool × (Store × W)
  unfolding keep_or_destroy
  produced p none s = (undefined "destroyed message", s)
  produced p (some m) (h, w) =
      let (taken, w') = produce m w in (ok taken, (keep_or_destroy p taken h, w'))

  -- pushMessage on a pointer.
  unfoldable pub push_message : Option ℕ → Store × W → Outcome Bool × (Store × W)
  unfolding produced
  push_message none s = (undefined "null message", s)
  push_message (some p) (h, w) = produced p (h.cell p) (h, w)

  abbrev Pushed : Type 0
  Pushed = Outcome (Bool × List (Option ℕ)) × (Store × W)

  -- After a push: the loop goes on, or ends with a null pointer in front.
  go_on : List (Option ℕ) → Outcome Bool × (Store × W) → (Store × W → Pushed) → Pushed
  go_on ms (ok true, s) rest = rest s
  go_on ms (ok false, s) rest = (ok (false, none ∷ ms), s)
  go_on ms (throws e, s) rest = (throws e, s)
  go_on ms (undefined why, s) rest = (undefined why, s)

  -- pushMessages on a vector of pointers.
  unfoldable pub push_messages : List (Option ℕ) → Store × W → Pushed
  unfolding push_message go_on
  push_messages [] s = (ok (true, []), s)
  push_messages (p ∷ ms) s = go_on ms (push_message p s) (push_messages ms)

module _ {C : Type 0} where
  reported :
      ℕ
      → Option MonitorMessage
      → Status
      → Store × Callbacks C
      → Outcome (Option (C × EventType × MonitorMessage)) × (Store × Callbacks C)
  unfolding destroy unqueue
  reported p none status s = (undefined "destroyed message", s)
  reported p (some m) status (h, cs) =
      let (call, cs') = dr_cb (some m) status cs in
      (ok call, (record (destroy p h) { queued = unqueue p h.queued }, cs'))

  -- dr_cb on the opaque pointer of a message: it is owned again, and destroyed at the end.
  unfoldable pub report :
      ℕ
      → Status
      → Store × Callbacks C
      → Outcome (Option (C × EventType × MonitorMessage)) × (Store × Callbacks C)
  unfolding reported
  report p status (h, cs) = reported p (h.cell p) status (h, cs)
