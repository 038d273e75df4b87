-- ===== src/Command/Types.antt =====
-- The command classes of CMDCommand.h. Each class is a constructor over the fields of `Command`;
-- the `type` field is data of its own, as in the source.
use ekg.Prelude.{String, Bool, true, ◌≡◌, Key, ◌↔◌, arith, ℕ, nat_eq, ltb}
use ekg.Common.Outcome.{Outcome, ok, undefined}

pub data CommandType : Type 0 where
  monitor get put info unknown : CommandType

unfoldable pub command_type_to_string : CommandType → String
command_type_to_string get = "get"
command_type_to_string info = "info"
command_type_to_string monitor = "monitor"
command_type_to_string put = "put"
command_type_to_string unknown = "unknown"

-- The enumerators in their order, as `std::map` compares them.
abbrev pub rank : CommandType → ℕ
rank monitor = 0
rank get = 1
rank put = 2
rank info = 3
rank unknown = 4

abbrev pub type_eq : CommandType → CommandType → Bool
type_eq a b = nat_eq (rank a) (rank b)

pub type_eq_iff : (a b : CommandType) → (type_eq a b ≡ true) ↔ (a ≡ b)
type_eq_iff a b = ground arith

instance abbrev pub CommandType_key : Key CommandType
CommandType_key = record { eq = type_eq; eq_iff = type_eq_iff; less = λ a b. ltb (rank a) (rank b) }

pub record CommandBase : Type 0 where
  pub type : CommandType
  pub protocol : String
  pub channel_name : String

pub data Command : Type 0 where
  aquire_command : CommandBase → Bool → String → Command
  get_command put_command info_command : CommandBase → String → Command

abbrev pub base : Command → CommandBase
base (aquire_command b activate topic) = b
base (get_command b topic) = b
base (put_command b value) = b
base (info_command b topic) = b

pub record AquireFields : Type 0 where
  pub channel_name : String
  pub protocol : String
  pub activate : Bool
  pub destination_topic : String

-- static_pointer_cast<const AquireCommand>(c): undefined on an object of another class.
unfoldable pub as_aquire : Command → Outcome AquireFields
as_aquire (aquire_command b activate topic) = ok (record {
  channel_name = b.channel_name;
  protocol = b.protocol;
  activate = activate;
  destination_topic = topic;
})
as_aquire _ = undefined "static_pointer_cast to AquireCommand"

-- The `type` field names the class of the object.
abbrev pub IsWellTyped : Command → Type 0
IsWellTyped (aquire_command b activate topic) = b.type ≡ monitor
IsWellTyped (get_command b topic) = b.type ≡ get
IsWellTyped (put_command b value) = b.type ≡ put
IsWellTyped (info_command b topic) = b.type ≡ info

-- The fields that the other classes add: the destination topic, or the value of a put.
pub record ChannelText : Type 0 where
  pub channel_name : String
  pub protocol : String
  pub content : String

abbrev channel_text : CommandBase → String → ChannelText
channel_text b s = record { channel_name = b.channel_name; protocol = b.protocol; content = s }

unfoldable pub as_get : Command → Outcome ChannelText
as_get (get_command b topic) = ok (channel_text b topic)
as_get _ = undefined "static_pointer_cast to GetCommand"

unfoldable pub as_put : Command → Outcome ChannelText
as_put (put_command b value) = ok (channel_text b value)
as_put _ = undefined "static_pointer_cast to PutCommand"

unfoldable pub as_info : Command → Outcome ChannelText
as_info (info_command b topic) = ok (channel_text b topic)
as_info _ = undefined "static_pointer_cast to InfoCommand"
