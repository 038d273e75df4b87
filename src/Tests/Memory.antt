-- ===== src/Tests/Memory.antt =====
-- Three messages at three addresses, for a producer with room for two.
use ekg.Prelude.{ℕ, ◌<◌, ◌≡◌, refl, false, Option, none, some, List, [], ◌∷◌}
use ekg.Common.Outcome.{ok}
use ekg.Node.Worker.{MonitorMessage}
use ekg.Pubsub.Publisher.{Status, dr_cb}
use ekg.Pubsub.Publisher.Memory.{Store, make, push_message, push_messages, report}
use ekg.Pubsub.Publisher.Memory.Life.{Life, makes, pushes, Lives, stays, goes, Lives-IsOwned}
use ekg.Pubsub.Publisher.Memory.Owners.{IsOwned, IsSound, count, filled, push_messages-IsOwned}
use ekg.Tests.{message, producer}

abbrev nothing : Store
nothing = record { cell = λ a. none; queued = [] }

-- The callbacks are numbers.
abbrev fresh : Life (List MonitorMessage) ℕ
fresh = record { vector = []; store = nothing; callbacks = []; world = [] }

abbrev three : Store
three = make 2 (message "c") (make 1 (message "b") (make 0 (message "a") nothing))

abbrev addresses : List ℕ
addresses = 0 ∷ 1 ∷ 2 ∷ []

abbrev pointers : List (Option ℕ)
pointers = some 0 ∷ some 1 ∷ some 2 ∷ []

abbrev made : Life (List MonitorMessage) ℕ
made = record { vector = pointers; store = three; callbacks = []; world = [] }

nothing-IsOwned : IsOwned [] nothing
nothing-IsOwned a = refl

three_made : Lives producer fresh made
unfolding make
three_made =
    goes (makes fresh 0 (message "a") refl)
      (goes (makes _ 1 (message "b") refl) (goes (makes _ 2 (message "c") refl) stays))

three-IsOwned : IsOwned pointers three
three-IsOwned = (Lives-IsOwned producer three_made nothing-IsOwned).0

push_owned_example : IsSound producer (push_messages producer pointers (three, []))
push_owned_example = push_messages-IsOwned producer addresses three [] three-IsOwned

-- Two are pushed, and a null pointer stays for the third.
abbrev pushed : Store
pushed = (push_messages producer pointers (three, [])).1.0

abbrev after_push : Life (List MonitorMessage) ℕ
after_push = record {
  vector = none ∷ [];
  store = pushed;
  callbacks = [];
  world = message "a" ∷ message "b" ∷ [];
}

whole_life : Lives producer made after_push
unfolding make push_messages push_message
whole_life =
    goes (pushes made addresses false (none ∷ []) pushed (message "a" ∷ message "b" ∷ []) refl refl)
      stays

lives_example :
    IsOwned (none ∷ []) pushed
    × ((p : ℕ) (status : Status)
        → 0 < count p pushed.queued
        → (m : MonitorMessage) × (h : Store) × (pushed.cell p ≡ some m)
          × (report p status (pushed, after_push.callbacks) ≡ (
            ok (dr_cb (some m) status after_push.callbacks).0,
            (h, (dr_cb (some m) status after_push.callbacks).1),
          ))
          × (h.cell p ≡ none))
    × (filled (none ∷ []) ≡ [] → pushed.queued ≡ [] → (a : ℕ) → pushed.cell a ≡ none)
lives_example = Lives-IsOwned producer whole_life three-IsOwned

-- The refused message is gone, and the other two wait for their reports.
third_is_gone : (pushed.cell 2 ≡ none) × (pushed.queued ≡ 0 ∷ 1 ∷ [])
unfolding push_messages push_message make
third_is_gone = (refl, refl)
