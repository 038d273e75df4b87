-- ===== src/Tests/Thread.antt =====
-- The thread of the command controller over a broker with one message per call.
use ekg.Prelude.{ℕ, ◌+◌, ◌≡◌, refl, List, [], ◌∷◌, nat_eq, if◌then◌else◌}
use ekg.Prelude.StdMap.{find, insert, place}
use ekg.Common.Outcome.{Outcome, ok, throws, runtime_error}
use ekg.Command.Json.{if_contains, as_object, as_string, same_kind, kind}
use ekg.Command.Parser.{parse, any_cast_string, string_field}
use ekg.Command.Types.{Command, command_type_to_string}
use ekg.Consumer.{Subscriber, handle_batch, handle_message}
use ekg.Consumer.Thread.{consume}
use ekg.Consumer.Thread.Offsets.{Offsets}
use ekg.Consumer.Thread.Committed.{failed_round_is_requested}
use ekg.Tests.{json, element, get_channel_a}

-- The position, and the last one that was asked to be committed.
abbrev World : Type 0
World = ℕ × ℕ

abbrev broker : Subscriber World
broker = record {
  get_msg = λ w. (element "get" ∷ [], (w.0 + 1, w.1));
  commit = λ w. (ok tt, (w.0, w.0));
}

-- It refuses the first batch.
abbrev refuse_first : List Command → World → Outcome (Unit {0}) × World
refuse_first cs w = (if nat_eq w.0 1 then throws (runtime_error "refused") else ok tt, w)

abbrev broker_offsets : Offsets broker refuse_first
broker_offsets = record {
  position = λ w. w.0;
  requested = λ w. w.1;
  position-get_msg = λ w. refl;
  requested-get_msg = λ w. refl;
  position-commit = λ w. refl;
  requested-commit = λ w h. refl;
  commit_fails = λ w h. absurd (h refl);
  position-handler = λ cs w. refl;
  requested-handler = λ cs w. refl;
}

one_get : handle_batch json (element "get" ∷ []) ≡ (ok (get_channel_a ∷ []), [])
unfolding handle_batch handle_message parse if_contains find insert place any_cast_string
    string_field command_type_to_string as_object as_string same_kind kind
one_get = refl

failed_round_example :
    ((consume json broker refuse_first 1 (0, 0)).1.1 ≡ 0)
    × ((consume json broker refuse_first 2 (0, 0)).1.1 ≡ 2)
failed_round_example =
    failed_round_is_requested json broker refuse_first broker_offsets (0, 0) (1, 0) (2, 0)
      (element "get") (element "get") [] [] get_channel_a get_channel_a [] [] [] []
      (runtime_error "refused") refl one_get refl refl one_get refl refl
