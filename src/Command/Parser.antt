-- ===== src/Command/Parser.antt =====
-- MapToCommand of CMDCommand.cpp. The keys are those of the KEY_ macros of CMDCommand.h.
-- `serialize` of boost::json is a parameter: its text goes to the log only.
mod Fields
mod Reading
pub mod Requests
use ekg.Prelude.{
  ℕ, String, Option, none, some, Bool, true, false, List, [], ◌∷◌, ◌++◌, ◌==◌, String_key,
  if◌then◌else◌, append_text,
}
use ekg.Prelude.StdMap.{StdMap, find, insert}
use ekg.Common.Outcome.{Outcome, ok, throws, std_error, undefined, ◌>>=◌}
use ekg.Common.Log.{LogLine, line, error}
use ekg.Command.Json.{Value, Object, Kind, kind, same_kind, if_contains, as_string}
use ekg.Command.Types.{
  CommandType, monitor, get, put, info, unknown, CommandBase, Command, aquire_command, get_command,
  put_command, info_command,
}

-- std::any, over the types that `checkFields` stores.
pub data Any : Type 0 where
  bool : Bool → Any
  int64 uint64 double : ℕ → Any
  text : String → Any

unfoldable pub any_cast_string : Any → Outcome String
any_cast_string (text s) = ok s
any_cast_string _ = throws (std_error "bad any_cast")

unfoldable pub any_cast_bool : Any → Outcome Bool
any_cast_bool (bool b) = ok b
any_cast_bool _ = throws (std_error "bad any_cast")

abbrev pub FieldValuesMap : Type 0
FieldValuesMap = StdMap String Any

-- The chain of comparisons of `getCMDType`.
pub named_type : String → CommandType
named_type cmd =
    if cmd == "monitor"
    then monitor
    else if cmd == "get"
    then get
    else if cmd == "put"
    then put
    else if cmd == "info"
    then info
    else unknown

pub get_cmd_type : Object → Outcome CommandType
unfolding if_contains as_string named_type
get_cmd_type obj = elim (if_contains "command" obj) [
  | none ↦ ok unknown
  | some v ↦ as_string v >>= λ cmd. ok (named_type cmd)
]

-- The inner switch of `checkFields`: the kinds with no case insert nothing.
pub store_value : String → Value → FieldValuesMap → FieldValuesMap
store_value name (Value.int64 n) m = (insert name (int64 n) m).0
store_value name (Value.bool b) m = (insert name (bool b) m).0
store_value name (Value.uint64 n) m = (insert name (uint64 n) m).0
store_value name (Value.double n) m = (insert name (double n) m).0
store_value name (Value.text s) m = (insert name (text s) m).0
store_value name _ m = m

pub check_field : Object → String × Kind → FieldValuesMap → FieldValuesMap
unfolding store_value if_contains same_kind kind
check_field obj (name, k) m = elim (if_contains name obj) [
  | none ↦ m
  | some v ↦ if same_kind (kind v) k then store_value name v m else m
]

pub check_all : Object → List (String × Kind) → FieldValuesMap → FieldValuesMap
check_all obj [] m = m
check_all obj (f ∷ fs) m = check_all obj fs (check_field obj f m)

-- The result is a `unique_ptr` that is never null.
pub check_fields : Object → List (String × Kind) → Option FieldValuesMap
unfolding check_all check_field
check_fields obj fields = some (check_all obj fields [])

-- fields->find(key)->second: undefined at the end iterator.
pub second_of : String → FieldValuesMap → Outcome Any
unfolding find
second_of key fields = elim (find key fields) [
  | none ↦ undefined "dereference of the end iterator"
  | some v ↦ ok v
]

unfoldable pub string_field : String → FieldValuesMap → Outcome String
unfolding second_of any_cast_string
string_field key fields = second_of key fields >>= any_cast_string

unfoldable pub bool_field : String → FieldValuesMap → Outcome Bool
unfolding second_of any_cast_bool
bool_field key fields = second_of key fields >>= any_cast_bool

abbrev pub Parsed : Type 0
Parsed = Outcome (Option Command) × List LogLine

abbrev pub base_of : CommandType → String → String → CommandBase
base_of type protocol channel = record { type = type; protocol = protocol; channel_name = channel }

pub build_monitor : FieldValuesMap → Outcome (Option Command)
unfolding string_field bool_field
build_monitor fields = do
  protocol ← string_field "protocol" fields
  channel ← string_field "channel_name" fields
  activate ← bool_field "activate" fields
  topic ← string_field "dest_topic" fields
  ok (some (aquire_command (base_of monitor protocol channel) activate topic))

-- `get`, `put` and `info` read three texts each.
pub build_with :
    CommandType
    → (CommandBase → String → Command)
    → String
    → FieldValuesMap
    → Outcome (Option Command)
unfolding string_field
build_with type make last fields = do
  protocol ← string_field "protocol" fields
  channel ← string_field "channel_name" fields
  value ← string_field last fields
  ok (some (make (base_of type protocol channel) value))

abbrev pub texts : String → List (String × Kind)
texts last = ("protocol", Kind.text) ∷ ("channel_name", Kind.text) ∷ (last, Kind.text) ∷ []

module _ (serialize : Object → String) where
  -- The cases of the switch in `parse`, last first: a case whose fields are null falls through.
  case_unknown : Object → Parsed
  case_unknown obj =
      (ok none, line (append_text "Command not well formed:" (serialize obj)) error ∷ [])

  case_info : Object → Parsed
  unfolding case_unknown check_fields build_with
  case_info obj = elim (check_fields obj (texts "dest_topic")) [
    | none ↦ case_unknown obj
    | some fields ↦ (build_with info info_command "dest_topic" fields, [])
  ]

  case_put : Object → Parsed
  unfolding case_info check_fields build_with
  case_put obj = elim (check_fields obj (texts "value")) [
    | none ↦ case_info obj
    | some fields ↦ (build_with put put_command "value" fields, [])
  ]

  case_get : Object → Parsed
  unfolding case_put check_fields build_with
  case_get obj = elim (check_fields obj (texts "dest_topic")) [
    | none ↦ case_put obj
    | some fields ↦ (build_with get get_command "dest_topic" fields, [])
  ]

  case_monitor : Object → Parsed
  unfolding case_get check_fields build_monitor
  case_monitor obj = elim (check_fields obj (("activate", Kind.bool) ∷ texts "dest_topic")) [
    | none ↦ case_get obj
    | some fields ↦ (build_monitor fields, [])
  ]

  pub parse_as : Object → CommandType → Parsed
  unfolding case_monitor case_get case_put case_info case_unknown
  parse_as obj monitor = case_monitor obj
  parse_as obj get = case_get obj
  parse_as obj put = case_put obj
  parse_as obj info = case_info obj
  parse_as obj unknown = case_unknown obj

  -- An exception of `getCMDType` leaves `parse`.
  pub parse_typed : Object → Outcome CommandType → Parsed
  unfolding parse_as
  parse_typed obj (ok type) = parse_as obj type
  parse_typed obj (throws e) = (throws e, [])
  parse_typed obj (undefined u) = (undefined u, [])

  unfoldable pub parse : Object → Parsed
  unfolding parse_typed get_cmd_type
  parse obj = parse_typed obj (get_cmd_type obj)
