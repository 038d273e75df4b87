-- ===== src/Gateway/Configured.antt =====
-- The start of the gateway from its options: each service is constructed with the configuration
-- that ProgramOptions makes of the stored values. What a constructor does with its configuration
-- is a parameter.
use ekg.Prelude.{◌≡◌, refl, ap, subst, ◌∙◌, String, false, List, [], ◌∷◌, ◌⊎◌, inl, inr}
use ekg.Common.Outcome.{Exception, Outcome, ok, throws, undefined, ◌>>=◌, runtime_error}
use ekg.Gateway.{
  Service, logger, epics_service_manager, publisher, subscriber, node_controller, cmd_controller,
  Gateway, Setup, waiting, returned, setup, create, plan,
}
use ekg.Gateway.Starting.{build_all, Ends, ends_as_built}
use ekg.Options.{
  VariablesMap, has_option, LogConfiguration, CmdControllerConfig, PublisherConfiguration,
  SubscriberConfiguration, get_logger_configuration, get_cmd_controller_configuration,
  get_publisher_configuration, get_subscriber_configuration, get_storage_path,
}
use ekg.Options.Table.{IsStored}
use ekg.Options.Table.Types.{configurations_return}

pub record Constructors : Type 0 where
  pub make_logger : LogConfiguration → Outcome (Unit {0})
  pub make_manager : Outcome (Unit {0})
  pub make_publisher : PublisherConfiguration → Outcome (Unit {0})
  pub make_subscriber : SubscriberConfiguration → Outcome (Unit {0})
  pub make_node_controller : String → Outcome (Unit {0})
  pub make_cmd_controller : CmdControllerConfig → Outcome (Unit {0})

-- Every constructor returns.
pub record AllReturn (c : Constructors) : Type 0 where
  pub logger_returns : (l : LogConfiguration) → c.make_logger l ≡ ok tt
  pub manager_returns : c.make_manager ≡ ok tt
  pub publisher_returns : (p : PublisherConfiguration) → c.make_publisher p ≡ ok tt
  pub subscriber_returns : (s : SubscriberConfiguration) → c.make_subscriber s ≡ ok tt
  pub node_returns : (path : String) → c.make_node_controller path ≡ ok tt
  pub cmd_returns : (m : CmdControllerConfig) → c.make_cmd_controller m ≡ ok tt

-- `split` is that of parseKVCustomParam.
module _ (split : String → List String) (c : Constructors) where
  open c use {
    make_logger, make_manager, make_publisher, make_subscriber, make_node_controller,
    make_cmd_controller,
  }

  unfoldable pub construct_from : VariablesMap → Service → Outcome (Unit {0})
  construct_from vm logger = get_logger_configuration vm >>= make_logger
  construct_from vm epics_service_manager = make_manager
  construct_from vm publisher = get_publisher_configuration split vm >>= make_publisher
  construct_from vm subscriber = get_subscriber_configuration split vm >>= make_subscriber
  construct_from vm node_controller = get_storage_path vm >>= make_node_controller
  construct_from vm cmd_controller = get_cmd_controller_configuration vm >>= make_cmd_controller

  -- `setup` with what `parse` leaves. If it throws, no value is read.
  unfoldable pub start : Outcome VariablesMap → Gateway → Setup
  unfolding construct_from
  start (ok vm) g = setup (construct_from vm) (ok (has_option "help" vm)) g
  start (throws e) g = setup (construct_from []) (throws e) g
  start (undefined why) g = setup (construct_from []) (undefined why) g

  abbrev pub Waits : Setup → Type 0
  Waits r =
      (g : Gateway) × (r ≡ waiting g)
      × (g.services
          ≡ logger ∷ epics_service_manager ∷ publisher ∷ subscriber ∷ node_controller
            ∷ cmd_controller ∷ [])

  abbrev pub Fails : List Service → Setup → Type 0
  Fails ss r = (g : Gateway) × (r ≡ returned 1 g) × (g.services ≡ ss)

  module _ (all : AllReturn c) (vm : VariablesMap) where
    ended :
        (b : List Service × Outcome (Unit {0}))
        → build_all (construct_from vm) plan ≡ b
        → has_option "help" vm ≡ false
        → Ends (construct_from vm) create b (start (ok vm) create)
    unfolding start
    ended b e h =
        subst
          (λ x.
            Ends (construct_from vm) create x
              (setup (construct_from vm) (ok (has_option "help" vm)) create))
          e (rw h (ends_as_built (construct_from vm) create))

    started :
        {A : Type 0} (get : Outcome A) (make : A → Outcome (Unit {0})) (a : A)
        → get ≡ ok a
        → make a ≡ ok tt
        → (get >>= make) ≡ ok tt
    started get make a e h = ap (λ o. o >>= make) e ∙ h

    refused :
        {A : Type 0} (get : Outcome A) (make : A → Outcome (Unit {0})) (x : Exception)
        → get ≡ throws x
        → (get >>= make) ≡ throws x
    refused get make x e = ap (λ o. o >>= make) e

    abbrev bad : Exception
    bad = runtime_error "Bad ky paramter"

    start-Fails :
        (ss : List Service)
        → build_all (construct_from vm) plan ≡ (ss, throws bad)
        → has_option "help" vm ≡ false
        → Fails ss (start (ok vm) create)
    unfolding create
    start-Fails ss e h = let (g, r, _, left) = ended (ss, throws bad) e h in (g, r, left)

    abbrev all_services : List Service
    all_services =
        logger ∷ epics_service_manager ∷ publisher ∷ subscriber ∷ node_controller ∷ cmd_controller
        ∷ []

    start-Waits :
        build_all (construct_from vm) plan ≡ (all_services, ok tt)
        → has_option "help" vm ≡ false
        → Waits (start (ok vm) create)
    unfolding create
    start-Waits e h = elim (ended (all_services, ok tt) e h) [
      | inl (quit, _, _, _, _) ↦ cc
      | inr (_, g, r, _, left) ↦ (g, r, left)
    ]

    -- From values as the option library stores them, with no help asked for and constructors that
    -- return, no option's type stops the start. It waits with all six services if the custom
    -- parameters of both clients are well formed. Otherwise it returns 1 and leaves what is
    -- constructed before: the logger and the EPICS service if those of the publisher are
    -- malformed, and the publisher too if only those of the subscriber are.
    pub start_stored :
        (actual_path : String)
        → IsStored actual_path vm
        → has_option "help" vm ≡ false
        → (((p : PublisherConfiguration) × (get_publisher_configuration split vm ≡ ok p))
            × ((s : SubscriberConfiguration) × (get_subscriber_configuration split vm ≡ ok s))
            × Waits (start (ok vm) create))
          ⊎ (((get_publisher_configuration split vm ≡ throws (runtime_error "Bad ky paramter"))
                × Fails (logger ∷ epics_service_manager ∷ []) (start (ok vm) create))
              ⊎ (((p : PublisherConfiguration) × (get_publisher_configuration split vm ≡ ok p))
                  × (get_subscriber_configuration split vm
                      ≡ throws (runtime_error "Bad ky paramter"))
                  × Fails (logger ∷ epics_service_manager ∷ publisher ∷ []) (start (ok vm) create)))
    unfolding construct_from create
    start_stored actual_path stored no_help =
        let ((l, el), (m, em, _, _), pub_config, sub_config, (path, ep)) =
          configurations_return actual_path vm stored split in
        let log = started (get_logger_configuration vm) make_logger l el (all.logger_returns l) in
        let node =
          started (get_storage_path vm) make_node_controller path ep (all.node_returns path) in
        let cmd =
          started (get_cmd_controller_configuration vm) make_cmd_controller m em
            (all.cmd_returns m) in
        let get_pub = get_publisher_configuration split vm in
        let get_sub = get_subscriber_configuration split vm in
        elim pub_config [
          | inr ex ↦
              let no_pub = refused get_pub make_publisher bad ex in
              inr (inl (ex, start-Fails _ (rw (log, all.manager_returns, no_pub) refl) no_help))
          | inl (p, e) ↦
              let pub_ok = started get_pub make_publisher p e (all.publisher_returns p) in
              elim sub_config [
                | inr ex ↦
                    let no_sub = refused get_sub make_subscriber bad ex in
                    inr (
                      inr (
                        (p, e),
                        ex,
                        start-Fails _ (rw (log, all.manager_returns, pub_ok, no_sub) refl) no_help,
                      ))
                | inl (s, es) ↦
                    let sub_ok = started get_sub make_subscriber s es (all.subscriber_returns s) in
                    inl (
                      (p, e),
                      (s, es),
                      start-Waits (rw (log, all.manager_returns, pub_ok, sub_ok, node, cmd) refl)
                          no_help,
                    )
              ]
        ]
