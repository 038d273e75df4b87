-- ===== src/Command/Parser/Requests.antt =====
-- Which requests `MapToCommand::parse` turns into which commands, which it refuses, and where its
-- behaviour is undefined. The members are those that the comments of CMDCommand.h list.
use ekg.Prelude.{
  String, Option, none, some, Bool, ◌≡◌, ◌≢◌, refl, sym, subst, ◌∙◌, String_key, arith, inl, inr,
  ◌⊎◌, ◌↔◌,
}
use ekg.Common.Outcome.{Outcome, ok, throws, undefined, ◌>>=◌, >>=-eq-ok}
use ekg.Command.Json.{Value, Object, if_contains}
use ekg.Command.Types.{
  CommandType, monitor, get, put, info, unknown, CommandBase, Command, aquire_command, get_command,
  put_command, info_command, command_type_to_string, IsWellTyped,
}
use ekg.Command.Parser.{base_of, check_fields, parse_as, parse_typed, parse, get_cmd_type}
use ekg.Command.Parser.Fields.{
  text_of, bool_of, read_texts, read_monitor, build_with-topic, build_with-value, build_monitor-eq,
}
use ekg.Command.Parser.Reading.{
  HasText, LacksText, text_of_ok, bool_of_ok, past_end, get_cmd_type_text, get_cmd_type_inv,
  text_step, bool_step, LacksText-text_of, bool_of_lacking,
}

abbrev HasBase : Object → CommandType → CommandBase → Type 0
HasBase obj type b =
    HasText obj "command" (command_type_to_string type)
    × (b.type ≡ type)
    × HasText obj "protocol" b.protocol
    × HasText obj "channel_name" b.channel_name

-- The request that stands for a command.
abbrev pub Describes : Object → Command → Type 0
Describes obj (aquire_command b activate topic) =
    HasBase obj monitor b
    × (if_contains "activate" obj ≡ some (Value.bool activate))
    × HasText obj "dest_topic" topic
Describes obj (get_command b topic) = HasBase obj get b × HasText obj "dest_topic" topic
Describes obj (put_command b value) = HasBase obj put b × HasText obj "value" value
Describes obj (info_command b topic) = HasBase obj info b × HasText obj "dest_topic" topic

-- A request of a known type that lacks one of its members, or has it with another kind.
abbrev pub IsIncomplete : Object → CommandType → Type 0
IsIncomplete obj monitor =
    LacksText obj "protocol"
    ⊎ LacksText obj "channel_name"
    ⊎ ((b : Bool) → if_contains "activate" obj ≢ some (Value.bool b))
    ⊎ LacksText obj "dest_topic"
IsIncomplete obj put =
    LacksText obj "protocol" ⊎ LacksText obj "channel_name" ⊎ LacksText obj "value"
IsIncomplete obj unknown = ⊥
IsIncomplete obj _ =
    LacksText obj "protocol" ⊎ LacksText obj "channel_name" ⊎ LacksText obj "dest_topic"

module _ (serialize : Object → String) (obj : Object) where
  -- What `parse` does, read off the request: the cases below the chosen one are never reached.
  read : CommandType → Outcome (Option Command)
  read monitor = read_monitor obj
  read get = read_texts obj get get_command "dest_topic"
  read put = read_texts obj put put_command "value"
  read info = read_texts obj info info_command "dest_topic"
  read unknown = ok none

  parse_as-read : (t : CommandType) → (parse_as serialize obj t).0 ≡ read t
  unfolding parse_as read check_fields
  parse_as-read monitor = build_monitor-eq obj
  parse_as-read get = build_with-topic obj get get_command
  parse_as-read put = build_with-value obj put put_command
  parse_as-read info = build_with-topic obj info info_command
  parse_as-read unknown = refl

  parse_typed-read : (m : Outcome CommandType) → (parse_typed serialize obj m).0 ≡ (m >>= read)
  unfolding parse_typed
  parse_typed-read (ok t) = parse_as-read t
  parse_typed-read (throws e) = refl
  parse_typed-read (undefined u) = refl

  parse-read : (parse serialize obj).0 ≡ (get_cmd_type obj >>= read)
  unfolding parse
  parse-read = parse_typed-read (get_cmd_type obj)

  Describes→parse : (c : Command) → Describes obj c → (parse serialize obj).0 ≡ ok (some c)
  unfolding read
  Describes→parse (aquire_command b a topic) ((t, e, p, ch), act, d) =
      parse-read
      ∙ rw (get_cmd_type_text obj monitor (λ q. cc) t) (rw (p, ch, act, d) (ground arith))
  Describes→parse (get_command b topic) ((t, e, p, ch), d) =
      parse-read ∙ rw (get_cmd_type_text obj get (λ q. cc) t) (rw (p, ch, d) (ground arith))
  Describes→parse (put_command b topic) ((t, e, p, ch), d) =
      parse-read ∙ rw (get_cmd_type_text obj put (λ q. cc) t) (rw (p, ch, d) (ground arith))
  Describes→parse (info_command b topic) ((t, e, p, ch), d) =
      parse-read ∙ rw (get_cmd_type_text obj info (λ q. cc) t) (rw (p, ch, d) (ground arith))

  read_texts_ok :
      (type : CommandType) (make : CommandBase → String → Command) (last : String) (c : Command)
      → read_texts obj type make last ≡ ok (some c)
      → (b : CommandBase) × (s : String) × (c ≡ make b s)
        × (b.type ≡ type)
        × HasText obj "protocol" b.protocol
        × HasText obj "channel_name" b.channel_name
        × HasText obj last s
  read_texts_ok type make last c h =
      let (p, hp, h1) = >>=-eq-ok (text_of (if_contains "protocol" obj)) _ h in
      let (ch, hch, h2) = >>=-eq-ok (text_of (if_contains "channel_name" obj)) _ h1 in
      let (s, hs, h3) = >>=-eq-ok (text_of (if_contains last obj)) _ h2 in
      (
        record { type = type; protocol = p; channel_name = ch },
        s,
        cc h3,
        refl,
        text_of_ok _ p hp,
        text_of_ok _ ch hch,
        text_of_ok _ s hs,
      )

  read_ok :
      (t : CommandType) (c : Command)
      → get_cmd_type obj ≡ ok t
      → read t ≡ ok (some c)
      → Describes obj c
  unfolding read
  read_ok monitor c k h =
      let (p, hp, h1) = >>=-eq-ok (text_of (if_contains "protocol" obj)) _ h in
      let (ch, hch, h2) = >>=-eq-ok (text_of (if_contains "channel_name" obj)) _ h1 in
      let (a, ha, h3) = >>=-eq-ok (bool_of (if_contains "activate" obj)) _ h2 in
      let (s, hs, h4) = >>=-eq-ok (text_of (if_contains "dest_topic" obj)) _ h3 in
      subst (Describes obj) {x = aquire_command (base_of monitor p ch) a s} (cc h4) (
        (get_cmd_type_inv obj monitor (λ q. cc) k, refl, text_of_ok _ p hp, text_of_ok _ ch hch),
        bool_of_ok _ a ha,
        text_of_ok _ s hs,
      )
  read_ok get c k h =
      let (b, s, e, t, p, ch, d) = read_texts_ok get get_command "dest_topic" c h in
      subst (Describes obj) (sym e) ((get_cmd_type_inv obj get (λ q. cc) k, t, p, ch), d)
  read_ok put c k h =
      let (b, s, e, t, p, ch, d) = read_texts_ok put put_command "value" c h in
      subst (Describes obj) (sym e) ((get_cmd_type_inv obj put (λ q. cc) k, t, p, ch), d)
  read_ok info c k h =
      let (b, s, e, t, p, ch, d) = read_texts_ok info info_command "dest_topic" c h in
      subst (Describes obj) (sym e) ((get_cmd_type_inv obj info (λ q. cc) k, t, p, ch), d)
  read_ok unknown c k h = cc

  parse→Describes : (c : Command) → (parse serialize obj).0 ≡ ok (some c) → Describes obj c
  parse→Describes c h =
      let (t, k, r) = >>=-eq-ok (get_cmd_type obj) read (sym parse-read ∙ h) in read_ok t c k r

  -- `parse` returns a command exactly when the request names its type and holds each of the
  -- members that this type needs, with the right kinds and with the command's own values.
  pub parse_iff : (c : Command) → ((parse serialize obj).0 ≡ ok (some c)) ↔ Describes obj c
  parse_iff c = (parse→Describes c, Describes→parse c)

  -- A parsed command has in `type` the enumerator of its class, so that every later
  -- `static_pointer_cast` on it is to the class it has.
  pub parse-IsWellTyped : (c : Command) → (parse serialize obj).0 ≡ ok (some c) → IsWellTyped c
  parse-IsWellTyped (aquire_command b a topic) h = (parse→Describes _ h).0.1
  parse-IsWellTyped (get_command b topic) h = (parse→Describes _ h).0.1
  parse-IsWellTyped (put_command b topic) h = (parse→Describes _ h).0.1
  parse-IsWellTyped (info_command b topic) h = (parse→Describes _ h).0.1

  read_texts_incomplete :
      (type : CommandType) (make : CommandBase → String → Command) (last : String)
      → LacksText obj "protocol" ⊎ LacksText obj "channel_name" ⊎ LacksText obj last
      → read_texts obj type make last ≡ undefined past_end
  read_texts_incomplete type make last (inl h) = rw (LacksText-text_of obj "protocol" h)
  read_texts_incomplete type make last (inr (inl h)) =
      text_step (if_contains "protocol" obj) _ λ p. rw (LacksText-text_of obj "channel_name" h)
  read_texts_incomplete type make last (inr (inr h)) =
      text_step (if_contains "protocol" obj) _
        λ p. text_step (if_contains "channel_name" obj) _ λ ch. rw (LacksText-text_of obj last h)

  read_incomplete : (t : CommandType) → IsIncomplete obj t → read t ≡ undefined past_end
  unfolding read
  read_incomplete monitor (inl h) = rw (LacksText-text_of obj "protocol" h)
  read_incomplete monitor (inr (inl h)) =
      text_step (if_contains "protocol" obj) _ λ p. rw (LacksText-text_of obj "channel_name" h)
  read_incomplete monitor (inr (inr (inl h))) =
      text_step (if_contains "protocol" obj) _
        λ p. text_step (if_contains "channel_name" obj) _ λ ch. rw (bool_of_lacking obj h)
  read_incomplete monitor (inr (inr (inr h))) = text_step (if_contains "protocol" obj) _ λ p.
      text_step (if_contains "channel_name" obj) _ λ ch.
        bool_step (if_contains "activate" obj) _ λ a. rw (LacksText-text_of obj "dest_topic" h)
  read_incomplete get h = read_texts_incomplete get get_command "dest_topic" h
  read_incomplete put h = read_texts_incomplete put put_command "value" h
  read_incomplete info h = read_texts_incomplete info info_command "dest_topic" h
  read_incomplete unknown h = absurd h

  -- A request of a known type that lacks a member, or has it with another kind, is not refused:
  -- `checkFields` returns its map all the same, and `parse` goes through the end iterator.
  pub parse_incomplete :
      (t : CommandType)
      → HasText obj "command" (command_type_to_string t)
      → IsIncomplete obj t
      → (parse serialize obj).0 ≡ undefined past_end
  parse_incomplete t h i =
      parse-read ∙ rw (get_cmd_type_text obj t (known t i) h) (read_incomplete t i)
    where
      known : (k : CommandType) → IsIncomplete obj k → k ≢ unknown
      known unknown j e = j
      known monitor j e = cc
      known get j e = cc
      known put j e = cc
      known info j e = cc
