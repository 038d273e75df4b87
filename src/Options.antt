-- ===== src/Options.antt =====
-- common/ProgramOptions.h and ProgramOptions.cpp. The variables map holds the values that the
-- option library stored; reading the sources and splitting a text are parameters.
pub mod Pairs
pub mod Sources
pub mod Table
use ekg.Prelude.{
  ℕ, String, Bool, true, false, Option, none, some, List, [], ◌∷◌, String_key, ◌==◌, if◌then◌else◌,
}
use ekg.Prelude.StdMap.{StdMap, find, insert}
use ekg.Common.Int.{ℤ, pos}
use ekg.Common.Outcome.{Exception, Outcome, ok, throws, undefined, runtime_error, std_error, ◌>>=◌}

-- The types of the options.
pub data Setting : Type 0 where
  flag : Bool → Setting
  text : String → Setting
  number : ℤ → Setting
  unsigned : ℕ → Setting
  texts : List String → Setting

abbrev pub VariablesMap : Type 0
VariablesMap = StdMap String Setting

abbrev pub bad_cast : Exception
bad_cast = std_error "bad_any_cast"

unfoldable pub as_flag : Setting → Outcome Bool
as_flag (flag b) = ok b
as_flag _ = throws bad_cast

unfoldable pub as_text : Setting → Outcome String
as_text (text s) = ok s
as_text _ = throws bad_cast

unfoldable pub as_number : Setting → Outcome ℤ
as_number (number n) = ok n
as_number _ = throws bad_cast

unfoldable pub as_unsigned : Setting → Outcome ℕ
as_unsigned (unsigned n) = ok n
as_unsigned _ = throws bad_cast

unfoldable pub as_texts : Setting → Outcome (List String)
as_texts (texts l) = ok l
as_texts _ = throws bad_cast

-- hasOption: vm.count(option), as a bool.
unfoldable pub has_option : String → VariablesMap → Bool
has_option option vm = elim (find option vm) [ none ↦ false | some v ↦ true ]

-- vm.count(name) > 0
unfoldable pub option_configure : String → VariablesMap → Bool
option_configure name vm = elim (find name vm) [ none ↦ false | some v ↦ true ]

-- getOption<T>: vm[name] of a missing name is an empty value, whose cast throws.
unfoldable pub get_option {ℓ} :
    {A : Type ℓ} → (Setting → Outcome A) → String → VariablesMap → Outcome A
get_option cast name vm = elim (find name vm) [ none ↦ throws bad_cast | some v ↦ cast v ]

-- GET_OPTION
unfoldable pub get_option_or {ℓ} :
    {A : Type ℓ} → (Setting → Outcome A) → String → A → VariablesMap → Outcome A
unfolding get_option option_configure
get_option_or cast name default vm =
    if option_configure name vm then get_option cast name vm else ok default

pub record LogConfiguration : Type 0 where
  pub log_level : String
  pub log_on_console : Bool
  pub log_on_file : Bool
  pub log_file_name : String
  pub log_file_max_size_mb : ℤ
  pub log_on_syslog : Bool
  pub log_syslog_srv : String
  pub log_syslog_srv_port : ℤ

unfoldable pub get_logger_configuration : VariablesMap → Outcome LogConfiguration
unfolding get_option get_option_or
get_logger_configuration vm = do
  level ← get_option as_text "log-level" vm
  console ← get_option_or as_flag "log-on-console" false vm
  file ← get_option_or as_flag "log-on-file" false vm
  file_name ← get_option_or as_text "log-file-name" "" vm
  size ← get_option_or as_number "log-file-max-size" (pos 1) vm
  syslog ← get_option_or as_flag "log-on-syslog" false vm
  server ← get_option_or as_text "syslog-server" "" vm
  port ← get_option_or as_number "syslog-port" (pos 514) vm
  ok (record {
    log_level = level;
    log_on_console = console;
    log_on_file = file;
    log_file_name = file_name;
    log_file_max_size_mb = size;
    log_on_syslog = syslog;
    log_syslog_srv = server;
    log_syslog_srv_port = port;
  })

pub record CmdControllerConfig : Type 0 where
  pub topic_in : String
  pub max_message_to_fetch : ℕ
  pub fetch_time_out : ℕ

-- The defaults are those of the source: 250 messages, and 10 microseconds.
unfoldable pub get_cmd_controller_configuration : VariablesMap → Outcome CmdControllerConfig
unfolding get_option_or
get_cmd_controller_configuration vm = do
  topic ← get_option_or as_text "cmd-input-topic" "" vm
  max ← get_option_or as_unsigned "cmd-max-fecth-element" 250 vm
  time_out ← get_option_or as_unsigned "cmd-max-fecth-time-out" 10 vm
  ok (record { topic_in = topic; max_message_to_fetch = max; fetch_time_out = time_out })

pub record PublisherConfiguration : Type 0 where
  pub server_address : String
  pub custom_impl_parameter : StdMap String String

pub record SubscriberConfiguration : Type 0 where
  pub server_address : String
  pub group_id : String
  pub custom_impl_parameter : StdMap String String

-- `split` is boost::algorithm::split at each ":".
module _ (split : String → List String) where
  -- The body of the loop over the pairs, on the pieces of one text.
  pub add_pair : List String → StdMap String String → Outcome (StdMap String String)
  unfolding insert
  add_pair (key ∷ value ∷ []) m = ok (insert key value m).0
  add_pair _ m = throws (runtime_error "Bad ky paramter")

  pub add_pairs : List String → StdMap String String → Outcome (StdMap String String)
  unfolding add_pair
  add_pairs [] m = ok m
  add_pairs (kv ∷ kvs) m = add_pair (split kv) m >>= add_pairs kvs

  unfoldable pub parse_kv_custom_param : List String → Outcome (StdMap String String)
  unfolding add_pairs
  parse_kv_custom_param kvs = add_pairs kvs []

  unfoldable pub get_publisher_configuration : VariablesMap → Outcome PublisherConfiguration
  unfolding get_option_or parse_kv_custom_param
  get_publisher_configuration vm = do
    address ← get_option_or as_text "pub-server-address" "" vm
    kvs ← get_option_or as_texts "pub-impl-kv" [] vm
    custom ← parse_kv_custom_param kvs
    ok (record { server_address = address; custom_impl_parameter = custom })

  unfoldable pub get_subscriber_configuration : VariablesMap → Outcome SubscriberConfiguration
  unfolding get_option_or parse_kv_custom_param
  get_subscriber_configuration vm = do
    address ← get_option_or as_text "sub-server-address" "" vm
    group ← get_option_or as_text "sub-group-id" "" vm
    kvs ← get_option_or as_texts "sub-impl-kv" [] vm
    custom ← parse_kv_custom_param kvs
    ok (record { server_address = address; group_id = group; custom_impl_parameter = custom })

unfoldable pub get_storage_path : VariablesMap → Outcome String
unfolding get_option
get_storage_path vm = get_option as_text "storage-path" vm
