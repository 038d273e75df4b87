-- ===== src/Tests/Commands.antt =====
-- The commands on concrete requests and batches.
use ekg.Prelude.{ℕ, ◌≡◌, refl, none, some, List, [], ◌∷◌, inr}
use ekg.Common.Outcome.{ok, undefined, Outcome}
use ekg.Command.Json.{if_contains, as_object, as_string, same_kind, kind}
use ekg.Prelude.StdMap.{find, insert, place}
use ekg.Command.Types.{put, Command, command_type_to_string}
use ekg.Command.Parser.{parse, any_cast_string, string_field}
use ekg.Command.Parser.Requests.{parse_iff, parse_incomplete}
use ekg.Consumer.{handle_message, handle_batch, consume_round, parse_error}
use ekg.Consumer.Batches.{handle_message_malformed, consume_round_commits}
use ekg.Tests.{serialize, get_request, short_request, get_channel_a, json, element, subscriber}

parse_iff_example : (parse serialize get_request).0 ≡ ok (some get_channel_a)
unfolding if_contains command_type_to_string
parse_iff_example =
    (parse_iff serialize get_request get_channel_a).1 ((refl, refl, refl, refl), refl)

parse_incomplete_example :
    (parse serialize short_request).0 ≡ undefined "dereference of the end iterator"
unfolding if_contains command_type_to_string
parse_incomplete_example = parse_incomplete serialize short_request put refl (inr (inr (λ s e. cc)))

malformed_example :
    handle_message json (element "oops")
    ≡ (ok none, parse_error json "not an object" (element "oops") ∷ [])
malformed_example = handle_message_malformed json (element "oops") "syntax error" (λ e. cc) refl

batch_of_one : handle_batch json (element "get" ∷ []) ≡ (ok (get_channel_a ∷ []), [])
unfolding handle_batch handle_message parse if_contains find insert place any_cast_string
    string_field command_type_to_string as_object as_string same_kind kind
batch_of_one = refl

handled : List Command → ℕ → Outcome (Unit {0}) × ℕ
handled cs w = (ok tt, w)

consume_round_example : consume_round json subscriber handled 4 ≡ (ok [], 5)
unfolding handled
consume_round_example =
    (consume_round_commits json subscriber handled 4 4 (element "get") [] get_channel_a [] [] refl
        batch_of_one).0
      refl
