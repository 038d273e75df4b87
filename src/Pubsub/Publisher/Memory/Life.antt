-- ===== src/Pubsub/Publisher/Memory/Life.antt =====
-- The life of the messages: they are made, pushed, reported, and destroyed with their vector.
use mathlib.Core.Path.{ap₂}
use ekg.Prelude.{
  ℕ, ◌+◌, ◌<◌, ◌≡◌, refl, sym, ap, subst, ◌∙◌, Bool, Option, none, some, List, [], ◌∷◌, ◌++◌, map,
  nat_eq_iff, arith,
}
use ekg.Common.Outcome.{ok}
use ekg.Node.Worker.{MonitorMessage}
use ekg.Pubsub.Publisher.{Producer, Callbacks, Status, dr_cb}
use ekg.Pubsub.Publisher.Memory.{Store, make, destroy, push_messages, report}
use ekg.Pubsub.Publisher.Memory.Owners.{
  count, filled, objects, IsOwned, push_messages-IsOwned, report-IsOwned, destroy-IsOwned,
}

-- The caller's vector, the messages, the callbacks and the producer.
pub record Life (W C : Type 0) : Type 0 where
  pub vector : List (Option ℕ)
  pub store : Store
  pub callbacks : Callbacks C
  pub world : W

-- The destructor of the vector.
unfoldable pub destroy_all : List (Option ℕ) → Store → Store
unfolding destroy
destroy_all [] h = h
destroy_all (none ∷ ps) h = destroy_all ps h
destroy_all (some p ∷ ps) h = destroy_all ps (destroy p h)

module _ {W C : Type 0} (producer : Producer W) where
  pub data Step : Life W C → Life W C → Type 0 where
    -- make_unique and push_back, at an address where nothing lives.
    makes :
        (s : Life W C) (a : ℕ) (m : MonitorMessage)
        → s.store.cell a ≡ none
        → Step s (record s { vector = s.vector ++ some a ∷ []; store = make a m s.store })
    -- pushMessages on a vector without null pointers.
    pushes :
        (s : Life W C) (ps : List ℕ) (done : Bool) (rest : List (Option ℕ)) (h : Store) (w : W)
        → s.vector ≡ map some ps
        → push_messages producer (map some ps) (s.store, s.world) ≡ (ok (done, rest), (h, w))
        → Step s (record s { vector = rest; store = h; world = w })
    -- The producer reports an address that it has.
    reports :
        (s : Life W C) (p : ℕ) (status : Status)
        → 0 < count p s.store.queued
        → Step s (record s {
          store = (report p status (s.store, s.callbacks)).1.0;
          callbacks = (report p status (s.store, s.callbacks)).1.1;
        })
    -- The vector is destroyed.
    drops : (s : Life W C) → Step s (record s { vector = []; store = destroy_all s.vector s.store })

  pub data Lives : Life W C → Life W C → Type 0 where
    stays : {s : Life W C} → Lives s s
    goes : {s t u : Life W C} → Step s t → Lives t u → Lives s u

count-filled :
    (a : ℕ) (xs ys : List (Option ℕ))
    → count a (filled (xs ++ ys)) ≡ count a (filled xs) + count a (filled ys)
count-filled a [] ys = omega arith
count-filled a (none ∷ xs) ys = count-filled a xs ys
count-filled a (some p ∷ xs) ys = ground (arith, count-filled a xs ys)

make-IsOwned :
    (vec : List (Option ℕ)) (h : Store) (a : ℕ) (m : MonitorMessage)
    → h.cell a ≡ none
    → IsOwned vec h
    → IsOwned (vec ++ some a ∷ []) (make a m h)
unfolding make
make-IsOwned vec h a m free owned b = ground (
  arith,
  owned b,
  ap objects free,
  count-filled b vec (some a ∷ []),
  nat_eq_iff a b,
  ap (λ x. objects (h.cell x)),
)

destroy_all-IsOwned :
    (vec : List (Option ℕ)) (h : Store) → IsOwned vec h → IsOwned [] (destroy_all vec h)
unfolding destroy_all
destroy_all-IsOwned [] h owned = owned
destroy_all-IsOwned (none ∷ ps) h owned = destroy_all-IsOwned ps h owned
destroy_all-IsOwned (some p ∷ ps) h owned =
    destroy_all-IsOwned ps (destroy p h) (destroy-IsOwned p ps h owned)

module _ {W : Type 0} (producer : Producer W) where
  pushed-IsOwned :
      (ps : List ℕ) (done : Bool) (rest : List (Option ℕ)) (h h' : Store) (w w' : W)
      → IsOwned (map some ps) h
      → push_messages producer (map some ps) (h, w) ≡ (ok (done, rest), (h', w'))
      → IsOwned rest h'
  pushed-IsOwned ps done rest h h' w w' owned e =
      let (_, left, answer, now) = push_messages-IsOwned producer ps h w owned in
      let same : left ≡ rest = cc (sym answer ∙ ap (λ r. r.0) e) in
      subst (λ l. IsOwned l h') same (subst (λ r. IsOwned left r.1.0) e now)

module _ {W C : Type 0} (producer : Producer W) where
  Step-IsOwned :
      {s t : Life W C} → Step producer s t → IsOwned s.vector s.store → IsOwned t.vector t.store
  Step-IsOwned (makes s a m free) owned = make-IsOwned s.vector s.store a m free owned
  Step-IsOwned (pushes s ps done rest h w e r) owned =
      pushed-IsOwned producer ps done rest s.store h s.world w
        (subst (λ v. IsOwned v s.store) e owned) r
  Step-IsOwned (reports s p status due) owned =
      let (_, _, _, e, now, _) = report-IsOwned p status s.vector s.store s.callbacks due owned in
      subst (λ r. IsOwned s.vector r.1.0) (sym e) now
  Step-IsOwned (drops s) owned = destroy_all-IsOwned s.vector s.store owned

  steps-IsOwned :
      {s t : Life W C} → Lives producer s t → IsOwned s.vector s.store → IsOwned t.vector t.store
  steps-IsOwned stays owned = owned
  steps-IsOwned (goes st r) owned = steps-IsOwned r (Step-IsOwned st owned)

  -- However messages are made, pushed, reported and dropped, from a store in which each message
  -- has one owner: each has one owner at the end. So a report that is to come finds its message
  -- alive, makes the call that `dr_cb` makes for it, and leaves it destroyed; and when the vector
  -- holds no pointer and no report is to come, no message is left: none leaks.
  pub Lives-IsOwned :
      {s t : Life W C}
      → Lives producer s t
      → IsOwned s.vector s.store
      → IsOwned t.vector t.store
        × ((p : ℕ) (status : Status)
            → 0 < count p t.store.queued
            → (m : MonitorMessage) × (h : Store) × (t.store.cell p ≡ some m)
              × (report p status (t.store, t.callbacks) ≡ (
                ok (dr_cb (some m) status t.callbacks).0,
                (h, (dr_cb (some m) status t.callbacks).1),
              ))
              × (h.cell p ≡ none))
        × (filled t.vector ≡ [] → t.store.queued ≡ [] → (a : ℕ) → t.store.cell a ≡ none)
  Lives-IsOwned {t} r owned =
      let now = steps-IsOwned r owned in
      (
        now,
        λ p status due.
            let (m, h, live, e, _, gone) =
              report-IsOwned p status t.vector t.store t.callbacks due now in
            (m, h, live, e, gone),
        λ empty done a.
            dead (t.store.cell a) (sym (now a) ∙ ap₂ (λ x y. count a x + count a y) empty done),
      )
    where
      dead : (o : Option MonitorMessage) → objects o ≡ 0 → o ≡ none
      dead none h = refl
      dead (some m) h = absurd (omega arith)
