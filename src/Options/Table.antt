-- ===== src/Options/Table.antt =====
-- The table of options that the constructor of ProgramOptions builds (common/ProgramOptions.cpp and
-- the names of ProgramOptions.h).
pub mod Types
use ekg.Prelude.{
  ◌≡◌, refl, String, false, Option, none, some, List, [], ◌∷◌, All, ◌⊎◌, inl, inr, String_key,
}
use ekg.Prelude.StdMap.{StdMap, find}
use ekg.Common.Int.{pos}
use ekg.Common.Outcome.{Outcome, ok, throws, runtime_error}
use ekg.Options.Pairs.{parse_kv-first_value}
use ekg.Options.{
  Setting, flag, text, number, unsigned, texts, VariablesMap, as_flag, as_text, as_number,
  as_unsigned, as_texts, option_configure, get_option, get_option_or, LogConfiguration,
  get_logger_configuration, CmdControllerConfig, get_cmd_controller_configuration, get_storage_path,
  parse_kv_custom_param, PublisherConfiguration, SubscriberConfiguration,
  get_publisher_configuration, get_subscriber_configuration,
}

-- The type of an option's value.
pub data Kind : Type 0 where
  a_flag a_text a_number an_unsigned a_list : Kind

abbrev pub kind_of : Setting → Kind
kind_of (flag b) = a_flag
kind_of (text s) = a_text
kind_of (number z) = a_number
kind_of (unsigned n) = an_unsigned
kind_of (texts l) = a_list

pub record OptionDescription : Type 0 where
  pub name : String
  pub kind : Kind
  pub default_value : Option Setting

abbrev option : String → Kind → Option Setting → OptionDescription
option name kind default = record { name = name; kind = kind; default_value = default }

-- `actual_path` is the path of ekg.sqlite in the working directory.
abbrev pub options : String → List OptionDescription
options actual_path =
    option "help" a_text none
    ∷ option "conf-file" a_flag (some (flag false))
    ∷ option "conf-file-name" a_text (some (text ""))
    ∷ option "log-level" a_text (some (text "info"))
    ∷ option "log-on-console" a_flag (some (flag false))
    ∷ option "log-on-file" a_flag (some (flag false))
    ∷ option "log-file-name" a_text none
    ∷ option "log-file-max-size" a_number (some (number (pos 1)))
    ∷ option "log-on-syslog" a_flag (some (flag false))
    ∷ option "syslog-server" a_text none
    ∷ option "syslog-port" a_number (some (number (pos 514)))
    ∷ option "cmd-input-topic" a_text none
    ∷ option "cmd-max-fecth-element" an_unsigned (some (unsigned 10))
    ∷ option "cmd-max-fecth-time-out" an_unsigned (some (unsigned 250))
    ∷ option "pub-server-address" a_text none
    ∷ option "pub-impl-kv" a_list none
    ∷ option "sub-server-address" a_text none
    ∷ option "sub-group-id" a_text (some (text "ekg-default-group"))
    ∷ option "sub-impl-kv" a_list none
    ∷ option "storage-path" a_text (some (text actual_path))
    ∷ []

-- What the option library ensures when it stores values: those of an option have its type, and an
-- option that is not given has its default value, if there is one.
abbrev pub Conforms : Option Setting → Kind → Option Setting → Type 0
Conforms default_value kind none = default_value ≡ none
Conforms default_value kind (some v) = kind_of v ≡ kind

abbrev pub Stored : VariablesMap → OptionDescription → Type 0
Stored vm o = Conforms o.default_value o.kind (find o.name vm)

abbrev pub IsStored : String → VariablesMap → Type 0
IsStored actual_path vm = All (Stored vm) (options actual_path)
