-- ===== src/Options/Table/Types.antt =====
-- What the configurations are built from, by the types of the options.
use ekg.Prelude.{◌≡◌, refl, String, false, Option, none, some, List, [], ◌⊎◌, inl, inr, String_key}
use ekg.Prelude.StdMap.{StdMap, find}
use ekg.Common.Int.{pos}
use ekg.Common.Outcome.{Outcome, ok, throws, runtime_error}
use ekg.Options.Pairs.{parse_kv-first_value}
use ekg.Options.{
  Setting, flag, text, number, unsigned, texts, VariablesMap, as_flag, as_text, as_number,
  as_unsigned, as_texts, option_configure, get_option, get_option_or, LogConfiguration,
  get_logger_configuration, CmdControllerConfig, get_cmd_controller_configuration, get_storage_path,
  parse_kv_custom_param, PublisherConfiguration, SubscriberConfiguration,
  get_publisher_configuration, get_subscriber_configuration,
}
use ekg.Options.Table.{
  Kind, a_flag, a_text, a_number, an_unsigned, a_list, kind_of, option, Conforms, Stored, IsStored,
}

abbrev pub Casts {ℓ} : {A : Type ℓ} → (Setting → Outcome A) → Kind → Type ℓ
Casts {A} cast k = (v : Setting) → kind_of v ≡ k → (a : A) × (cast v ≡ ok a)

Casts-flag : Casts as_flag a_flag
unfolding as_flag
Casts-flag (flag b) h = (b, refl)
Casts-flag (text b) h = cc
Casts-flag (number b) h = cc
Casts-flag (unsigned b) h = cc
Casts-flag (texts b) h = cc

Casts-text : Casts as_text a_text
unfolding as_text
Casts-text (flag b) h = cc
Casts-text (text b) h = (b, refl)
Casts-text (number b) h = cc
Casts-text (unsigned b) h = cc
Casts-text (texts b) h = cc

Casts-number : Casts as_number a_number
unfolding as_number
Casts-number (flag b) h = cc
Casts-number (text b) h = cc
Casts-number (number b) h = (b, refl)
Casts-number (unsigned b) h = cc
Casts-number (texts b) h = cc

Casts-unsigned : Casts as_unsigned an_unsigned
unfolding as_unsigned
Casts-unsigned (flag b) h = cc
Casts-unsigned (text b) h = cc
Casts-unsigned (number b) h = cc
Casts-unsigned (unsigned b) h = (b, refl)
Casts-unsigned (texts b) h = cc

Casts-list : Casts as_texts a_list
unfolding as_texts
Casts-list (flag b) h = cc
Casts-list (text b) h = cc
Casts-list (number b) h = cc
Casts-list (unsigned b) h = cc
Casts-list (texts b) h = (b, refl)

-- What the map has for an option.
found :
    (default_value : Option Setting) (k : Kind) (f : Option Setting)
    → Conforms default_value k f
    → ((f ≡ none) × (default_value ≡ none)) ⊎ ((v : Setting) × (f ≡ some v) × (kind_of v ≡ k))
found d k none h = inl (refl, h)
found d k (some v) h = inr (v, refl, h)

module _ {A : Type 0} (cast : Setting → Outcome A) (k : Kind) (c : Casts cast k) (name : String)
    (vm : VariablesMap) where
  -- An option with a default value is always there: the default of the macro is never used.
  get_defaulted :
      (given : Setting)
      → Stored vm (option name k (some given))
      → (a : A) × (get_option cast name vm ≡ ok a) × ((d : A) → get_option_or cast name d vm ≡ ok a)
  unfolding get_option get_option_or option_configure
  get_defaulted given s = elim (found (some given) k (find name vm) s) [
    | inl (e, h) ↦ cc
    | inr (v, e, h) ↦
        let (a, r) = c v h in
        (a, rw (get_option, e) r, λ d. rw (get_option_or, option_configure, get_option, e) r)
  ]

  get_declared :
      (default_value : Option Setting)
      → Stored vm (option name k default_value)
      → (d : A) → (a : A) × (get_option_or cast name d vm ≡ ok a)
  unfolding get_option get_option_or option_configure
  get_declared o s d = elim (found o k (find name vm) s) [
    | inl (e, h) ↦ (d, rw (get_option_or, option_configure, e) refl)
    | inr (v, e, h) ↦
        let (a, r) = c v h in (a, rw (get_option_or, option_configure, get_option, e) r)
  ]

parse_kv_ends :
    (split : String → List String) (kvs : List String)
    → ((m : StdMap String String) × (parse_kv_custom_param split kvs ≡ ok m))
      ⊎ (parse_kv_custom_param split kvs ≡ throws (runtime_error "Bad ky paramter"))
parse_kv_ends split kvs = elim (parse_kv-first_value split kvs) [
  | inl (m, e, _, _) ↦ inl (m, e)
  | inr (e, _) ↦ inr e
]

module _ (actual_path : String) (vm : VariablesMap) (h : IsStored actual_path vm) where
  -- With the values that the option library stores for the declared options, each of the five
  -- configurations can be built without a bad cast; only a malformed pair of the custom parameters
  -- throws. The batch size and the time-out of the command controller are the stored ones.
  pub configurations_return :
      (split : String → List String)
      → ((c : LogConfiguration) × (get_logger_configuration vm ≡ ok c))
        × ((c : CmdControllerConfig) × (get_cmd_controller_configuration vm ≡ ok c)
            × (get_option as_unsigned "cmd-max-fecth-element" vm ≡ ok c.max_message_to_fetch)
            × (get_option as_unsigned "cmd-max-fecth-time-out" vm ≡ ok c.fetch_time_out))
        × (((c : PublisherConfiguration) × (get_publisher_configuration split vm ≡ ok c))
            ⊎ (get_publisher_configuration split vm ≡ throws (runtime_error "Bad ky paramter")))
        × (((c : SubscriberConfiguration) × (get_subscriber_configuration split vm ≡ ok c))
            ⊎ (get_subscriber_configuration split vm ≡ throws (runtime_error "Bad ky paramter")))
        × ((path : String) × (get_storage_path vm ≡ ok path))
  unfolding get_logger_configuration get_cmd_controller_configuration get_publisher_configuration
      get_subscriber_configuration get_storage_path
  configurations_return split =
      let (
        _,
        (
          _,
          (
            _,
            (
              o_level,
              (
                o_console,
                (
                  o_file,
                  (
                    o_file_name,
                    (
                      o_size,
                      (
                        o_syslog,
                        (
                          o_server,
                          (
                            o_port,
                            (
                              o_topic,
                              (
                                o_max,
                                (
                                  o_time,
                                  (o_pub, (o_pub_kv, (o_sub, (o_group, (o_sub_kv, (o_path, _)))))),
                                ),
                              ),
                            ),
                          ),
                        ),
                      ),
                    ),
                  ),
                ),
              ),
            ),
          ),
        ),
      ) =
        h in
      let (level, e1, _) = get_defaulted as_text a_text Casts-text "log-level" vm _ o_level in
      let (console, _, e2) =
        get_defaulted as_flag a_flag Casts-flag "log-on-console" vm _ o_console in
      let (file, _, e3) = get_defaulted as_flag a_flag Casts-flag "log-on-file" vm _ o_file in
      let (file_name, e4) =
        get_declared as_text a_text Casts-text "log-file-name" vm none o_file_name "" in
      let (size, _, e5) =
        get_defaulted as_number a_number Casts-number "log-file-max-size" vm _ o_size in
      let (syslog, _, e6) = get_defaulted as_flag a_flag Casts-flag "log-on-syslog" vm _ o_syslog in
      let (server, e7) =
        get_declared as_text a_text Casts-text "syslog-server" vm none o_server "" in
      let (port, _, e8) = get_defaulted as_number a_number Casts-number "syslog-port" vm _ o_port in
      let (topic, e9) =
        get_declared as_text a_text Casts-text "cmd-input-topic" vm none o_topic "" in
      let (max, e10, e11) =
        get_defaulted as_unsigned an_unsigned Casts-unsigned "cmd-max-fecth-element" vm _ o_max in
      let (time, e12, e13) =
        get_defaulted as_unsigned an_unsigned Casts-unsigned "cmd-max-fecth-time-out" vm _ o_time in
      let (pub_address, e14) =
        get_declared as_text a_text Casts-text "pub-server-address" vm none o_pub "" in
      let (pub_kvs, e15) =
        get_declared as_texts a_list Casts-list "pub-impl-kv" vm none o_pub_kv [] in
      let (sub_address, e16) =
        get_declared as_text a_text Casts-text "sub-server-address" vm none o_sub "" in
      let (group, _, e17) = get_defaulted as_text a_text Casts-text "sub-group-id" vm _ o_group in
      let (sub_kvs, e18) =
        get_declared as_texts a_list Casts-list "sub-impl-kv" vm none o_sub_kv [] in
      let (path, e19, _) = get_defaulted as_text a_text Casts-text "storage-path" vm _ o_path in
      (
        (
          record {
            log_level = level;
            log_on_console = console;
            log_on_file = file;
            log_file_name = file_name;
            log_file_max_size_mb = size;
            log_on_syslog = syslog;
            log_syslog_srv = server;
            log_syslog_srv_port = port;
          },
          rw (e1, e2 false, e3 false, e4, e5 (pos 1), e6 false, e7, e8 (pos 514)) refl,
        ),
        (
          record { topic_in = topic; max_message_to_fetch = max; fetch_time_out = time },
          rw (e9, e11 250, e13 10) refl,
          e10,
          e12,
        ),
        elim (parse_kv_ends split pub_kvs) [
          | inl (m, e) ↦ inl (
            record { server_address = pub_address; custom_impl_parameter = m },
            rw (e14, e15, e) refl,
          )
          | inr e ↦ inr (rw (e14, e15, e) refl)
        ],
        elim (parse_kv_ends split sub_kvs) [
          | inl (m, e) ↦ inl (
            record { server_address = sub_address; group_id = group; custom_impl_parameter = m },
            rw (e16, e17 "", e18, e) refl,
          )
          | inr e ↦ inr (rw (e16, e17 "", e18, e) refl)
        ],
        (path, e19),
      )
