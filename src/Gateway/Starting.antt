-- ===== src/Gateway/Starting.antt =====
-- Which services a start leaves, and how it ends.
pub mod Outcomes
use ekg.Prelude.{
  ◌≡◌, refl, sym, ap, ◌∙◌, true, false, List, [], ◌∷◌, ◌++◌, append_assoc, append-nil, ◌⊎◌, inl,
  inr, String, Bool-cases, if◌then◌else◌, subst, All, ◌≢◌,
}
use ekg.Common.Outcome.{Outcome, Exception, ok, throws, undefined}
use ekg.Gateway.{
  awaited, create, stop, logger, epics_service_manager, publisher, subscriber, node_controller,
  cmd_controller, Service, Gateway, Setup, returned, waiting, note, plan, launched, go_on,
  launch_all, concluded, after_parse, setup, shut_down, without_released, last_words, words_of,
  is_undefined,
}

module _ (construct : Service → Outcome (Unit {0})) where
  -- The services of the plan in front of the first that fails, and how the sequence ends.
  abbrev pub built :
      Outcome (Unit {0})
      → Service
      → List Service × Outcome (Unit {0})
      → List Service × Outcome (Unit {0})
  built (ok u) s (ss, o) = (s ∷ ss, o)
  built (throws e) s rest = ([], throws e)
  built (undefined why) s rest = ([], undefined why)

  abbrev pub build_all : List (List String × Service) → List Service × Outcome (Unit {0})
  build_all [] = ([], ok tt)
  build_all ((texts, s) ∷ rest) = built (construct s) s (build_all rest)

  abbrev Launched : List (List String × Service) → Gateway → Outcome (Unit {0}) × Gateway → Type 0
  Launched steps g r =
      (r.0 ≡ (build_all steps).1)
      × (r.1.services ≡ g.services ++ (build_all steps).0)
      × (r.1.quit ≡ g.quit)
      × (r.1.terminated ≡ g.terminated)

  launched-Launched :
      (o : Outcome (Unit {0})) (texts : List String) (s : Service)
      (rest : List (List String × Service))
      → ((g : Gateway) → Launched rest g (launch_all construct rest g))
      → construct s ≡ o
      → (g : Gateway)
      → Launched
          ((texts, s) ∷ rest)
          g
          (go_on construct (launched construct o s (note texts g)) (launch_all construct rest))
  unfolding go_on launched
  launched-Launched (ok u) texts s rest later e g =
      let (o, kept, q, t) = later (record (note texts g) { services = g.services ++ s ∷ [] }) in
      rw e (o, kept ∙ append_assoc g.services (s ∷ []) _, q, t)
  launched-Launched (throws x) texts s rest later e g =
      rw e (refl, sym (append-nil g.services), refl, refl)
  launched-Launched (undefined why) texts s rest later e g =
      rw e (refl, sym (append-nil g.services), refl, refl)

  launch_all-Launched :
      (steps : List (List String × Service)) (g : Gateway)
      → Launched steps g (launch_all construct steps g)
  unfolding launch_all
  launch_all-Launched [] g = (refl, sym (append-nil g.services), refl, refl)
  launch_all-Launched ((texts, s) ∷ rest) g =
      launched-Launched (construct s) texts s rest (launch_all-Launched rest) refl g

  pub all_fine :
      ((s : Service) → construct s ≡ ok tt)
      → build_all plan ≡ (
        logger ∷ epics_service_manager ∷ publisher ∷ subscriber ∷ node_controller ∷ cmd_controller
            ∷ [],
        ok tt,
      )
  all_fine fine =
      rw
        (
          fine logger,
          fine epics_service_manager,
          fine publisher,
          fine subscriber,
          fine node_controller,
          fine cmd_controller,
        )
        refl

  -- How `setup` ends, by what was built and how.
  abbrev pub Ends : Gateway → List Service × Outcome (Unit {0}) → Setup → Type 0
  Ends g (ss, ok u) r =
      ((g.quit ≡ true)
        × (g' : Gateway) × (r ≡ returned 0 g')
        × (g'.terminated ≡ true)
        × (g'.services ≡ without_released (g.services ++ ss)))
      ⊎ ((g.quit ≡ false)
          × (g' : Gateway) × (r ≡ waiting g')
          × (g'.terminated ≡ g.terminated)
          × (g'.services ≡ g.services ++ ss))
  Ends g (ss, throws e) r =
      (g' : Gateway) × (r ≡ returned 1 g')
      × (g'.terminated ≡ g.terminated)
      × (g'.services ≡ g.services ++ ss)
  Ends g (ss, undefined why) r = r ≡ is_undefined why

  concluded_ok :
      (r : Outcome (Unit {0}) × Gateway)
      → r.0 ≡ ok tt
      → concluded construct r ≡ (if r.1.quit then returned 0 (shut_down r.1) else waiting r.1)
  unfolding concluded
  concluded_ok (ok u, g) e = refl
  concluded_ok (throws x, g) e = cc
  concluded_ok (undefined why, g) e = cc

  concluded_throws :
      (r : Outcome (Unit {0}) × Gateway) (x : Exception)
      → r.0 ≡ throws x
      → concluded construct r ≡ returned 1 (last_words (words_of x) r.1)
  unfolding concluded
  concluded_throws (ok u, g) x e = cc
  concluded_throws (throws y, g) x e = let same : y ≡ x = cc in rw same
  concluded_throws (undefined why, g) x e = cc

  concluded_undefined :
      (r : Outcome (Unit {0}) × Gateway) (why : String)
      → r.0 ≡ undefined why
      → concluded construct r ≡ is_undefined why
  unfolding concluded
  concluded_undefined (ok u, g) why e = cc
  concluded_undefined (throws y, g) why e = cc
  concluded_undefined (undefined w, g) why e = cc

  concluded-Ends :
      (g : Gateway) (ss : List Service) (o : Outcome (Unit {0})) (r : Outcome (Unit {0}) × Gateway)
      → r.0 ≡ o
      → r.1.services ≡ g.services ++ ss
      → r.1.quit ≡ g.quit
      → r.1.terminated ≡ g.terminated
      → Ends g (ss, o) (concluded construct r)
  unfolding shut_down last_words awaited
  concluded-Ends g ss (ok u) r e k q t = elim (Bool-cases g.quit) [
    | inl h ↦ inl (h, shut_down r.1, concluded_ok r e ∙ rw (q, h), refl, ap without_released k)
    | inr h ↦ inr (h, r.1, concluded_ok r e ∙ rw (q, h), t, k)
  ]
  concluded-Ends g ss (throws x) r e k q t =
      (last_words (words_of x) r.1, concluded_throws r x e, t, k)
  concluded-Ends g ss (undefined why) r e k q t = concluded_undefined r why e

  pub ends_as_built : (g : Gateway) → Ends g (build_all plan) (setup construct (ok false) g)
  unfolding setup after_parse
  ends_as_built g =
      let (o, kept, q, t) = launch_all-Launched plan g in
      concluded-Ends g (build_all plan).0 (build_all plan).1 (launch_all construct plan g) o kept q
        t

  -- If no constructor throws, a new gateway waits with all services until `stop`.
  pub stop-setup :
      ((s : Service) → construct s ≡ ok tt)
      → (g g' : Gateway) × (setup construct (ok false) create ≡ waiting g)
        × (g.quit ≡ false)
        × (g.services
            ≡ logger ∷ epics_service_manager ∷ publisher ∷ subscriber ∷ node_controller
              ∷ cmd_controller ∷ [])
        × (awaited (stop g) ≡ returned 0 g')
        × (g'.terminated ≡ true)
        × (g'.services ≡ logger ∷ epics_service_manager ∷ publisher ∷ subscriber ∷ [])
  unfolding setup after_parse create stop awaited shut_down without_released
  stop-setup fine =
      let (o, kept, q, t) = launch_all-Launched plan create in
      let r : Outcome (Unit {0}) × Gateway = launch_all construct plan create in
      let all = kept ∙ rw (all_fine fine) refl in
      (
        r.1,
        shut_down (stop r.1),
        concluded_ok r (o ∙ rw (all_fine fine) refl) ∙ rw q refl,
        q,
        all,
        refl,
        refl,
        ap without_released all,
      )
