-- ===== src/Options/Sources.antt =====
-- ProgramOptions::parse. The command line, the environment and the file are read by the option
-- library: each is a parameter that adds to the stored values.
use ekg.Prelude.{String, Option, none, some, ◌==◌, String_key, if◌then◌else◌}
use ekg.Common.Outcome.{Exception, Outcome, ok, throws, undefined, runtime_error}
use ekg.Options.{VariablesMap, as_flag, as_text, get_option}

-- What a step of the option library does: it stores, or throws one of the two errors of usage that
-- `parse` catches, or anything else.
pub data Stored : Type 0 where
  stored : VariablesMap → Stored
  usage_error : String → Stored
  failed : Exception → Stored
  is_undefined : String → Stored

abbrev pub then_store : Stored → (VariablesMap → Stored) → Stored
then_store (stored vm) next = next vm
then_store (usage_error what) next = usage_error what
then_store (failed e) next = failed e
then_store (is_undefined why) next = is_undefined why

abbrev lifted {ℓ} : {A : Type ℓ} → Outcome A → (A → Stored) → Stored
lifted (ok a) next = next a
lifted (throws e) next = failed e
lifted (undefined why) next = is_undefined why

module _ {File : Type 0} (command_line environment : VariablesMap → Stored)
    (open_file : String → Option File) (config_file : File → VariablesMap → Stored) where
  named_file : String → VariablesMap → Stored
  named_file name vm =
      if name == ""
      then failed (runtime_error "configuration file has nott been specifyed")
      else elim (open_file name) [
        | none ↦ failed (runtime_error "Error opening configuration file")
        | some file ↦ config_file file vm
      ]

  from_file : VariablesMap → Stored
  unfolding named_file
  from_file vm = lifted (get_option as_flag "conf-file" vm) λ wanted.
      let read = lifted (get_option as_text "conf-file-name" vm) λ name. named_file name vm in
      if wanted then read else stored vm

  -- The catch clauses.
  reported : Stored → Outcome VariablesMap
  reported (stored vm) = ok vm
  reported (usage_error what) = throws (runtime_error what)
  reported (failed e) = throws e
  reported (is_undefined why) = undefined why

  -- ProgramOptions::parse
  unfoldable pub parse : VariablesMap → Outcome VariablesMap
  unfolding reported from_file
  parse vm = reported (then_store (then_store (command_line vm) environment) from_file)
