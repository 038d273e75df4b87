-- ===== src/Command/Parser/Fields.antt =====
-- `checkFields` seen through the lookups that `parse` makes on its result.
use ekg.Prelude.{
  String, Option, none, some, Bool, List, [], ◌∷◌, ◌≡◌, refl, ◌∙◌, ap, ◌==◌, String_key,
  if◌then◌else◌, arith, Option-cases, inl, inr, orelse,
}
use ekg.Prelude.StdMap.{find, find-insert}
use ekg.Common.Outcome.{Outcome, ok, undefined, ◌>>=◌}
use ekg.Command.Json.{Value, Object, Kind, kind, same_kind, if_contains}
use ekg.Command.Types.{CommandType, CommandBase, Command, monitor, aquire_command}
use ekg.Command.Parser.{
  Any, text, bool, int64, uint64, double, FieldValuesMap, store_value, check_field, check_all,
  second_of, string_field, bool_field, build_with, build_monitor, any_cast_string, any_cast_bool,
  texts, base_of,
}

abbrev stored : Value → Option Any
stored (Value.int64 n) = some (int64 n)
stored (Value.bool b) = some (bool b)
stored (Value.uint64 n) = some (uint64 n)
stored (Value.double n) = some (double n)
stored (Value.text s) = some (text s)
stored _ = none

-- What `checkFields` keeps of one member.
matched : Object → String → Kind → Option Any
matched obj name k = elim (if_contains name obj) [
  | none ↦ none
  | some v ↦ if same_kind (kind v) k then stored v else none
]

find-store_value :
    (name j : String) (v : Value) (m : FieldValuesMap)
    → find j (store_value name v m) ≡ (if name == j then orelse (find j m) (stored v) else find j m)
unfolding store_value
find-store_value name j (Value.int64 n) m = ground (arith, find-insert name j (int64 n) m)
find-store_value name j (Value.bool b) m = ground (arith, find-insert name j (bool b) m)
find-store_value name j (Value.uint64 n) m = ground (arith, find-insert name j (uint64 n) m)
find-store_value name j (Value.double n) m = ground (arith, find-insert name j (double n) m)
find-store_value name j (Value.text s) m = ground (arith, find-insert name j (text s) m)
find-store_value name j _ m = ground arith

find-check_field :
    (obj : Object) (name j : String) (k : Kind) (m : FieldValuesMap)
    → find j (check_field obj (name, k) m)
      ≡ (if name == j then orelse (find j m) (matched obj name k) else find j m)
unfolding check_field matched
find-check_field obj name j k m = elim (Option-cases (if_contains name obj)) [
  | inl e ↦ rw (e, check_field, matched) (ground arith)
  | inr (v, e) ↦ rw (e, check_field, matched) (ground (arith, find-store_value name j v m))
]

-- What the loop over the fields leaves under a name.
abbrev wanted : Object → List (String × Kind) → String → Option Any → Option Any
wanted obj [] j o = o
wanted obj ((name, k) ∷ fs) j o =
    wanted obj fs j (if name == j then orelse o (matched obj name k) else o)

find-check_all :
    (obj : Object) (fs : List (String × Kind)) (j : String) (m : FieldValuesMap)
    → find j (check_all obj fs m) ≡ wanted obj fs j (find j m)
unfolding check_all
find-check_all obj [] j m = refl
find-check_all obj ((name, k) ∷ fs) j m =
    find-check_all obj fs j (check_field obj (name, k) m)
    ∙ ap (wanted obj fs j) (find-check_field obj name j k m)

-- A member that must be a text, read from the request itself.
abbrev pub text_of : Option Value → Outcome String
text_of (some (Value.text s)) = ok s
text_of _ = undefined "dereference of the end iterator"

abbrev pub bool_of : Option Value → Outcome Bool
bool_of (some (Value.bool b)) = ok b
bool_of _ = undefined "dereference of the end iterator"

string_field-eq :
    (obj : Object) (key : String) (m : FieldValuesMap)
    → find key m ≡ matched obj key Kind.text
    → string_field key m ≡ text_of (if_contains key obj)
unfolding string_field second_of matched same_kind kind any_cast_string
string_field-eq obj key m h = ground arith

bool_field-eq :
    (obj : Object) (key : String) (m : FieldValuesMap)
    → find key m ≡ matched obj key Kind.bool
    → bool_field key m ≡ bool_of (if_contains key obj)
unfolding bool_field second_of matched same_kind kind any_cast_bool
bool_field-eq obj key m h = ground arith

module _ (obj : Object) (fs : List (String × Kind)) (key : String) where
  string_field-check_all :
      wanted obj fs key none ≡ matched obj key Kind.text
      → string_field key (check_all obj fs []) ≡ text_of (if_contains key obj)
  unfolding find
  string_field-check_all h = string_field-eq obj key _ (find-check_all obj fs key [] ∙ h)

  bool_field-check_all :
      wanted obj fs key none ≡ matched obj key Kind.bool
      → bool_field key (check_all obj fs []) ≡ bool_of (if_contains key obj)
  unfolding find
  bool_field-check_all h = bool_field-eq obj key _ (find-check_all obj fs key [] ∙ h)

-- `parse` reads the members of the request: the texts of `get`, `put` and `info`.
abbrev pub read_texts :
    Object → CommandType → (CommandBase → String → Command) → String → Outcome (Option Command)
read_texts obj type make last = do
  protocol ← text_of (if_contains "protocol" obj)
  channel ← text_of (if_contains "channel_name" obj)
  value ← text_of (if_contains last obj)
  ok (some (make (base_of type protocol channel) value))

abbrev pub read_monitor : Object → Outcome (Option Command)
read_monitor obj = do
  protocol ← text_of (if_contains "protocol" obj)
  channel ← text_of (if_contains "channel_name" obj)
  activate ← bool_of (if_contains "activate" obj)
  topic ← text_of (if_contains "dest_topic" obj)
  ok (some (aquire_command (base_of monitor protocol channel) activate topic))

pub build_with-topic :
    (obj : Object) (type : CommandType) (make : CommandBase → String → Command)
    → build_with type make "dest_topic" (check_all obj (texts "dest_topic") [])
      ≡ read_texts obj type make "dest_topic"
unfolding build_with
build_with-topic obj type make = rw (
  string_field-check_all obj (texts "dest_topic") "protocol" refl,
  string_field-check_all obj (texts "dest_topic") "channel_name" refl,
  string_field-check_all obj (texts "dest_topic") "dest_topic" refl,
)

pub build_with-value :
    (obj : Object) (type : CommandType) (make : CommandBase → String → Command)
    → build_with type make "value" (check_all obj (texts "value") [])
      ≡ read_texts obj type make "value"
unfolding build_with
build_with-value obj type make = rw (
  string_field-check_all obj (texts "value") "protocol" refl,
  string_field-check_all obj (texts "value") "channel_name" refl,
  string_field-check_all obj (texts "value") "value" refl,
)

abbrev monitor_fields : List (String × Kind)
monitor_fields = ("activate", Kind.bool) ∷ texts "dest_topic"

pub build_monitor-eq :
    (obj : Object) → build_monitor (check_all obj monitor_fields []) ≡ read_monitor obj
unfolding build_monitor
build_monitor-eq obj = rw (
  string_field-check_all obj monitor_fields "protocol" refl,
  string_field-check_all obj monitor_fields "channel_name" refl,
  bool_field-check_all obj monitor_fields "activate" refl,
  string_field-check_all obj monitor_fields "dest_topic" refl,
)
