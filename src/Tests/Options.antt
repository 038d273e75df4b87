-- ===== src/Tests/Options.antt =====
-- The stored values when only the input topic is given.
use ekg.Prelude.{◌≡◌, ◌⊎◌, refl, String, false, List, [], ◌∷◌, String_key}
use ekg.Prelude.StdMap.{find}
use ekg.Common.Int.{pos}
use ekg.Common.Outcome.{ok, throws, runtime_error}
use ekg.Options.{
  has_option, flag, text, number, unsigned, VariablesMap, PublisherConfiguration,
  SubscriberConfiguration, get_publisher_configuration, get_subscriber_configuration,
}
use ekg.Options.Table.{IsStored}
use ekg.Gateway.{create, logger, epics_service_manager, publisher}
use ekg.Gateway.Configured.{Constructors, AllReturn, start, start_stored, Waits, Fails}

abbrev vm : VariablesMap
vm =
    ("cmd-input-topic", text "in")
    ∷ ("cmd-max-fecth-element", unsigned 10)
    ∷ ("cmd-max-fecth-time-out", unsigned 250)
    ∷ ("conf-file", flag false)
    ∷ ("conf-file-name", text "")
    ∷ ("log-file-max-size", number (pos 1))
    ∷ ("log-level", text "info")
    ∷ ("log-on-console", flag false)
    ∷ ("log-on-file", flag false)
    ∷ ("log-on-syslog", flag false)
    ∷ ("storage-path", text "ekg.sqlite")
    ∷ ("sub-group-id", text "ekg-default-group")
    ∷ ("syslog-port", number (pos 514))
    ∷ []

vm-IsStored : IsStored "ekg.sqlite" vm
unfolding find
vm-IsStored = (
  refl,
  (
    refl,
    (
      refl,
      (
        refl,
        (
          refl,
          (
            refl,
            (
              refl,
              (
                refl,
                (
                  refl,
                  (
                    refl,
                    (
                      refl,
                      (refl, (refl, (refl, (refl, (refl, (refl, (refl, (refl, (refl, tt))))))))),
                    ),
                  ),
                ),
              ),
            ),
          ),
        ),
      ),
    ),
  ),
)

abbrev split : String → List String
split s = s ∷ []

abbrev quiet : Constructors
quiet = record {
  make_logger = λ l. ok tt;
  make_manager = ok tt;
  make_publisher = λ p. ok tt;
  make_subscriber = λ s. ok tt;
  make_node_controller = λ path. ok tt;
  make_cmd_controller = λ m. ok tt;
}

quiet-AllReturn : AllReturn quiet
quiet-AllReturn = record {
  logger_returns = λ l. refl;
  manager_returns = refl;
  publisher_returns = λ p. refl;
  subscriber_returns = λ s. refl;
  node_returns = λ path. refl;
  cmd_returns = λ m. refl;
}

start_example :
    (((p : PublisherConfiguration) × (get_publisher_configuration split vm ≡ ok p))
      × ((s : SubscriberConfiguration) × (get_subscriber_configuration split vm ≡ ok s))
      × Waits split quiet (start split quiet (ok vm) create))
    ⊎ (((get_publisher_configuration split vm ≡ throws (runtime_error "Bad ky paramter"))
          × Fails split quiet
              (logger ∷ epics_service_manager ∷ [])
              (start split quiet (ok vm) create))
        ⊎ (((p : PublisherConfiguration) × (get_publisher_configuration split vm ≡ ok p))
            × (get_subscriber_configuration split vm ≡ throws (runtime_error "Bad ky paramter"))
            × Fails split quiet
                (logger ∷ epics_service_manager ∷ publisher ∷ [])
                (start split quiet (ok vm) create)))
unfolding find has_option
start_example = start_stored split quiet quiet-AllReturn vm "ekg.sqlite" vm-IsStored refl
