-- ===== src/Pubsub/Publisher/Memory/Owners.antt =====
-- Every message has one owner: a pointer of the caller's vector, or a report that is to come.
use ekg.Prelude.{
  subst, ℕ, suc, ◌+◌, ◌<◌, ◌≤◌, ◌≡◌, refl, sym, ap, Bool, true, false, Option, none, some, List, [],
  ◌∷◌, ◌++◌, map, nat_eq, if◌then◌else◌, arith,
}
use ekg.Common.Outcome.{Outcome, ok}
use ekg.Node.Worker.{MonitorMessage}
use ekg.Pubsub.Publisher.{Producer, Callbacks, Status, dr_cb}
use ekg.Pubsub.Publisher.Memory.{
  Store, destroy, unqueue, keep_or_destroy, produced, push_message, go_on, push_messages, reported,
  report,
}

-- How often an address stands in a list.
abbrev pub count : ℕ → List ℕ → ℕ
count a [] = 0
count a (p ∷ ps) = let rest = count a ps in if nat_eq p a then suc rest else rest

-- The pointers of a vector that are not null.
abbrev pub filled : List (Option ℕ) → List ℕ
filled [] = []
filled (none ∷ ps) = filled ps
filled (some p ∷ ps) = p ∷ filled ps

abbrev pub objects : Option MonitorMessage → ℕ
objects none = 0
objects (some m) = 1

-- A live object has one owner, and any other address none.
abbrev pub IsOwned : List (Option ℕ) → Store → Type 0
IsOwned vec h = (a : ℕ) → count a (filled vec) + count a h.queued ≡ objects (h.cell a)

pub count-append : (a : ℕ) (ps qs : List ℕ) → count a (ps ++ qs) ≡ count a ps + count a qs
count-append a [] qs = omega arith
count-append a (p ∷ ps) qs = ground (arith, count-append a ps qs)

pub objects-le : (o : Option MonitorMessage) → objects o ≤ 1
objects-le none = omega arith
objects-le (some m) = omega arith

-- What is owned is alive.
pub owned_live : (o : Option MonitorMessage) → 0 < objects o → (m : MonitorMessage) × (o ≡ some m)
owned_live none h = absurd (omega arith)
owned_live (some m) h = (m, refl)

pub destroy-IsOwned :
    (p : ℕ) (ms : List (Option ℕ)) (h : Store) → IsOwned (some p ∷ ms) h → IsOwned ms (destroy p h)
unfolding destroy
destroy-IsOwned p ms h owned a = ground (arith, owned a, objects-le (h.cell a))

module _ {W : Type 0} (producer : Producer W) where
  pub keep_or_destroy-IsOwned :
      (p : ℕ) (taken : Bool) (ms : List (Option ℕ)) (h : Store)
      → IsOwned (some p ∷ ms) h
      → IsOwned ms (keep_or_destroy producer p taken h)
  unfolding keep_or_destroy destroy
  keep_or_destroy-IsOwned p true ms h owned a =
      ground (arith, owned a, count-append a h.queued (p ∷ []))
  keep_or_destroy-IsOwned p false ms h owned a = destroy-IsOwned p ms h owned a

  -- What a vector becomes, of what `pushMessages` answers.
  abbrev pub IsSound : Outcome (Bool × List (Option ℕ)) × (Store × W) → Type 0
  IsSound (o, (h, w)) =
      (done : Bool) × (rest : List (Option ℕ)) × (o ≡ ok (done, rest)) × IsOwned rest h

  push_message-IsOwned :
      (p : ℕ) (ms : List (Option ℕ)) (h : Store) (w : W)
      → IsOwned (some p ∷ ms) h
      → (taken : Bool) × (h' : Store) × (w' : W) × (push_message producer (some p) (h, w)
          ≡ (ok taken, (h', w')))
        × IsOwned ms h'
  unfolding push_message produced
  push_message-IsOwned p ms h w owned =
      let (m, live) = owned_live (h.cell p) (ground (arith, owned p)) in
      let (taken, w') = producer.produce m w in
      (
        taken,
        keep_or_destroy producer p taken h,
        w',
        ap (λ o. produced producer p o (h, w)) live,
        keep_or_destroy-IsOwned p taken ms h owned,
      )

  go_on-IsSound :
      (taken : Bool) (ps : List ℕ) (h : Store) (w : W)
      → IsOwned (map some ps) h
      → IsSound (push_messages producer (map some ps) (h, w))
      → IsSound
          (go_on producer (map some ps) (ok taken, (h, w)) (push_messages producer (map some ps)))
  unfolding go_on
  go_on-IsSound true ps h w owned later = later
  go_on-IsSound false ps h w owned later = (false, none ∷ map some ps, refl, owned)

  -- If each live message has one owner, `pushMessages` never reads a destroyed one, destroys none
  -- twice and loses none: it answers, and then each live message has one owner again, a pointer
  -- of the vector that is left or a report that is to come.
  pub push_messages-IsOwned :
      (ps : List ℕ) (h : Store) (w : W)
      → IsOwned (map some ps) h
      → IsSound (push_messages producer (map some ps) (h, w))
  unfolding push_messages
  push_messages-IsOwned [] h w owned = (true, [], refl, owned)
  push_messages-IsOwned (p ∷ ps) h w owned =
      let (taken, h', w', e, now) = push_message-IsOwned p (map some ps) h w owned in
      subst (λ r. IsSound (go_on producer (map some ps) r (push_messages producer (map some ps))))
        (sym e) (go_on-IsSound taken ps h' w' now (push_messages-IsOwned ps h' w' now))

-- The address stands among the reports that are to come.
count-unqueue :
    (p a : ℕ) (qs : List ℕ)
    → 0 < count p qs
    → count a qs ≡ count a (unqueue p qs) + (if nat_eq p a then 1 else 0)
unfolding unqueue
count-unqueue p a [] h = absurd (omega arith)
count-unqueue p a (q ∷ qs) h = ground (arith, count-unqueue p a qs)

module _ {C : Type 0} where
  pub report-IsOwned :
      (p : ℕ) (status : Status) (vec : List (Option ℕ)) (h : Store) (cs : Callbacks C)
      → 0 < count p h.queued
      → IsOwned vec h
      → (m : MonitorMessage) × (h' : Store) × (h.cell p ≡ some m)
        × (report p status (h, cs)
            ≡ (ok (dr_cb (some m) status cs).0, (h', (dr_cb (some m) status cs).1)))
        × IsOwned vec h'
        × (h'.cell p ≡ none)
  unfolding report reported destroy
  report-IsOwned p status vec h cs due owned =
      let (m, live) = owned_live (h.cell p) (omega (arith, owned p)) in
      (
        m,
        record (destroy p h) { queued = unqueue p h.queued },
        live,
        ap (λ o. reported p o status (h, cs)) live,
        λ a. ground (arith, owned a, count-unqueue p a h.queued due, objects-le (h.cell a)),
        ground arith,
      )
