-- ===== src/Gateway/Starting/Outcomes.antt =====
-- How a start ends, for each constructor that can fail.
use ekg.Prelude.{
  ◌≡◌, refl, sym, ◌∙◌, true, false, List, [], ◌∷◌, ◌++◌, inl, inr, String, subst, All, ◌≢◌,
}
use ekg.Common.Outcome.{Outcome, Exception, ok, throws, undefined}
use ekg.Gateway.{
  logger, epics_service_manager, publisher, subscriber, node_controller, cmd_controller, Service,
  Gateway, returned, waiting, plan, setup, without_released, is_undefined,
}
use ekg.Gateway.Starting.{Ends, build_all, all_fine, ends_as_built}

module _ (construct : Service → Outcome (Unit {0})) where
  -- The services of a sequence of steps.
  abbrev services_of : List (List String × Service) → List Service
  services_of [] = []
  services_of ((texts, s) ∷ rest) = s ∷ services_of rest

  -- The first constructor that does not return ends the sequence.
  built_before :
      (steps : List (List String × Service)) (before after : List Service) (s : Service)
      (o : Outcome (Unit {0}))
      → services_of steps ≡ before ++ s ∷ after
      → All (λ x. construct x ≡ ok tt) before
      → o ≢ ok tt
      → construct s ≡ o
      → build_all construct steps ≡ (before, o)
  built_before [] [] after s o e h n k = cc
  built_before [] (b ∷ before) after s o e h n k = cc
  built_before ((texts, x) ∷ steps) [] after s (ok u) e h n k = absurd (n refl)
  built_before ((texts, x) ∷ steps) [] after s (throws y) e h n k =
      let same : x ≡ s = cc in rw (same, k) refl
  built_before ((texts, x) ∷ steps) [] after s (undefined why) e h n k =
      let same : x ≡ s = cc in rw (same, k) refl
  built_before ((texts, x) ∷ steps) (b ∷ before) after s o e (h, hs) n k =
      let (same, rest) : (x ≡ b) × (services_of steps ≡ before ++ s ∷ after) = (cc, cc) in
      rw (same, h, built_before steps before after s o rest hs n k) refl

  -- `setup`, when the options are read and no help is asked for, constructs the logger, the EPICS
  -- manager, the publisher, the subscriber, the node controller and the command controller, in
  -- this order. If the constructor of one throws and those before it returned, it returns 1, with
  -- those before it added to what is there, and is not terminated by this; if that constructor is
  -- undefined, so is `setup`. If all return, it waits with the six services added while `quit` is
  -- not set; if `quit` is set, it returns 0 and is terminated, and of the six services of a gateway
  -- that had none the two controllers are gone and the four others are left.
  pub setup-Ends :
      (g : Gateway)
      → ((before after : List Service) (s : Service)
          → before ++ s ∷ after
            ≡ logger ∷ epics_service_manager ∷ publisher ∷ subscriber ∷ node_controller
              ∷ cmd_controller ∷ []
          → All (λ x. construct x ≡ ok tt) before
          → ((e : Exception)
              → construct s ≡ throws e
              → (g' : Gateway) × (setup construct (ok false) g ≡ returned 1 g')
                × (g'.terminated ≡ g.terminated)
                × (g'.services ≡ g.services ++ before))
            × ((why : String)
                → construct s ≡ undefined why
                → setup construct (ok false) g ≡ is_undefined why))
        × (((s : Service) → construct s ≡ ok tt)
            → (g.quit ≡ false
                → (g' : Gateway) × (setup construct (ok false) g ≡ waiting g')
                  × (g'.terminated ≡ g.terminated)
                  × (g'.services
                      ≡ g.services
                        ++ logger ∷ epics_service_manager ∷ publisher ∷ subscriber ∷ node_controller
                          ∷ cmd_controller ∷ []))
              × (g.quit ≡ true
                  → g.services ≡ []
                  → (g' : Gateway) × (setup construct (ok false) g ≡ returned 0 g')
                    × (g'.terminated ≡ true)
                    × (g'.services ≡ logger ∷ epics_service_manager ∷ publisher ∷ subscriber ∷ [])))
  unfolding without_released
  setup-Ends g = (
    λ before after s e h. (
      λ x k.
          subst (λ b. Ends construct g b (setup construct (ok false) g))
            (built_before plan before after s (throws x) (sym e) h (λ q. cc) k)
            (ends_as_built construct g),
      λ why k.
          subst (λ b. Ends construct g b (setup construct (ok false) g))
            (built_before plan before after s (undefined why) (sym e) h (λ q. cc) k)
            (ends_as_built construct g),
    ),
    λ fine.
        let whole =
          subst (λ b. Ends construct g b (setup construct (ok false) g)) (all_fine construct fine)
            (ends_as_built construct g) in
        (
          λ q. elim whole [ inl (quits, _, _, _, _) ↦ cc | inr (_, g', e, t, k) ↦ (g', e, t, k) ],
          λ q none_there. elim whole [
            | inl (_, g', e, t, left) ↦ (g', e, t, left ∙ rw none_there refl)
            | inr (runs, _, _, _, _) ↦ cc
          ],
        ),
  )
