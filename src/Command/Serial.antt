-- ===== src/Command/Serial.antt =====
-- The `tag_invoke` functions and `to_json_string` of CMDCommand.h. `serialize` of boost::json is a
-- parameter.
use ekg.Prelude.{◌≡◌, refl, String}
use ekg.Common.Outcome.{Outcome, ok, ◌>>=◌}
use ekg.Command.Json.{Value, Object, empty, member}
use ekg.Command.Types.{
  Command, aquire_command, get_command, put_command, info_command, AquireFields, ChannelText,
  CommandBase, CommandType, monitor, get, put, info, unknown, base, as_aquire, as_get, as_put,
  as_info, IsWellTyped, command_type_to_string,
}

-- The overload for a type alone, and for the base class; `to_json_string` calls neither.
unfoldable pub value_from_type : CommandType → Object
unfolding command_type_to_string
value_from_type cfg = member "type" (Value.text (command_type_to_string cfg)) empty

unfoldable pub value_from_base : CommandBase → Object
value_from_base c =
    member "channel_name" (Value.text c.channel_name)
      (member "protocol" (Value.text c.protocol) empty)

unfoldable pub value_from_aquire : AquireFields → Object
value_from_aquire c = member "channel_name" (Value.text c.channel_name) (
    member "protocol" (Value.text c.protocol) (
      member "activate" (Value.bool c.activate)
        (member "destination_topic" (Value.text c.destination_topic) empty)))

-- GetCommand and InfoCommand.
unfoldable pub value_from_topic : ChannelText → Object
value_from_topic c = member "channel_name" (Value.text c.channel_name) (
    member "protocol" (Value.text c.protocol)
      (member "destination_topic" (Value.text c.content) empty))

unfoldable pub value_from_put : ChannelText → Object
value_from_put c =
    member "channel_name" (Value.text c.channel_name)
      (member "protocol" (Value.text c.protocol) (member "value" (Value.text c.content) empty))

abbrev pub base_text : CommandBase → String → ChannelText
base_text b s = record { channel_name = b.channel_name; protocol = b.protocol; content = s }

-- The object that the class of the command is written as.
abbrev pub object_of : Command → Object
object_of (aquire_command b a topic) = value_from_aquire (record {
  channel_name = b.channel_name;
  protocol = b.protocol;
  activate = a;
  destination_topic = topic;
})
object_of (get_command b topic) = value_from_topic (base_text b topic)
object_of (put_command b value) = value_from_put (base_text b value)
object_of (info_command b topic) = value_from_topic (base_text b topic)

module _ (serialize : Object → String) where
  json_of_type : CommandType → Command → Outcome String
  unfolding value_from_aquire value_from_topic value_from_put
  json_of_type get c = as_get c >>= λ f. ok (serialize (value_from_topic f))
  json_of_type info c = as_info c >>= λ f. ok (serialize (value_from_topic f))
  json_of_type monitor c = as_aquire c >>= λ f. ok (serialize (value_from_aquire f))
  json_of_type put c = as_put c >>= λ f. ok (serialize (value_from_put f))
  json_of_type unknown c = ok "Unknown"

  unfoldable pub to_json_string : Command → Outcome String
  unfolding json_of_type as_aquire as_get as_put as_info
  to_json_string c = json_of_type (base c).type c

  -- A command whose `type` names its class is written as the object of that class, with no cast to
  -- another one.
  pub to_json_string-object_of :
      (c : Command) → IsWellTyped c → to_json_string c ≡ ok (serialize (object_of c))
  unfolding to_json_string
  to_json_string-object_of (aquire_command b a topic) h = rw (h, json_of_type) refl
  to_json_string-object_of (get_command b topic) h = rw (h, json_of_type) refl
  to_json_string-object_of (put_command b value) h = rw (h, json_of_type) refl
  to_json_string-object_of (info_command b topic) h = rw (h, json_of_type) refl
