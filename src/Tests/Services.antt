-- ===== src/Tests/Services.antt =====
-- The start of the gateway, its options, its logger and its storage.
use ekg.Prelude.{refl, ◌≡◌, false, [], ◌∷◌, String_key}
use ekg.Common.Outcome.{Outcome, ok, throws, runtime_error}
use ekg.Gateway.{
  subscriber, node_controller, cmd_controller, Service, Gateway, publisher, logger,
  epics_service_manager, returned, create, setup,
}
use ekg.Gateway.Starting.Outcomes.{setup-Ends}

-- The broker refuses the publisher.
constructor : Service → Outcome (Unit {0})
constructor publisher = throws (runtime_error "no broker")
constructor _ = ok tt

setup_example :
    (g' : Gateway) × (setup constructor (ok false) create ≡ returned 1 g')
    × (g'.terminated ≡ false)
    × (g'.services ≡ logger ∷ epics_service_manager ∷ [])
unfolding constructor create
setup_example =
    ((setup-Ends constructor create).0 (logger ∷ epics_service_manager ∷ [])
        (subscriber ∷ node_controller ∷ cmd_controller ∷ []) publisher refl (refl, (refl, tt))).0
      (runtime_error "no broker") refl

builds : Service → Outcome (Unit {0})
builds s = ok tt
