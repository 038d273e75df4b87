-- ===== src/Epics/Manager/Rounds.antt =====
-- What one round of the polling thread delivers.
use mathlib.Core.Path.{fun_ext}
use mathlib.Core.Option
use ekg.Prelude.{
  ◌≡◌, refl, sym, ◌∙◌, ap, String, Bool, String_key, arith, Bool-cases, ◌==◌, inl, inr, List, [],
  ◌∷◌, filter,
}
use ekg.Prelude.StdMap.{StdMap, find}
use ekg.Common.Broadcaster.{call_all, broadcast-call_all}
use ekg.Epics.Channel.{Pvac, MonitorEvent, EpicsChannel}
use ekg.Epics.Manager.{Manager, notify, poll_channel, process_iterator, process_all, task_round}

filter_idem : {H : Type 0} (p : H → Bool) (hs : List H) → filter p (filter p hs) ≡ filter p hs
filter_idem p [] = refl
filter_idem p (h ∷ hs) = ground (arith, filter_idem p hs)

module _ (pvac : Pvac) {H W : Type 0} (is_live : W → H → Bool)
    (call : H → List (MonitorEvent pvac) → W → W) where
  -- The events of one channel reach the handlers only if there are any.
  abbrev pub announce : List (MonitorEvent pvac) → List H → W → W
  announce [] hs w = w
  announce (e ∷ es) hs w = call_all is_live call (e ∷ es) hs w

  -- The channels in the order of their names, each with what its poll returns.
  abbrev pub announce_all : List H → StdMap String (EpicsChannel pvac) → W → W
  announce_all hs [] w = w
  announce_all hs ((k, c) ∷ rest) w = announce_all hs rest (announce (poll_channel pvac c).0 hs w)

  module _
      (keep : (h j : H) (x : List (MonitorEvent pvac)) (w : W)
        → is_live (call h x w) j ≡ is_live w j) where
    call_all-is_live :
        (x : List (MonitorEvent pvac)) (hs : List H) (w : W) (j : H)
        → is_live (call_all is_live call x hs w) j ≡ is_live w j
    call_all-is_live x [] w j = refl
    call_all-is_live x (h ∷ hs) w j = call_all-is_live x hs (call h x w) j ∙ keep h j x w

    announce-is_live :
        (es : List (MonitorEvent pvac)) (hs : List H) (w : W)
        → is_live (announce es hs w) ≡ is_live w
    announce-is_live [] hs w = refl
    announce-is_live (e ∷ es) hs w = fun_ext (call_all-is_live (e ∷ es) hs w)

    notify-announce :
        (es : List (MonitorEvent pvac)) (ts : List H) (w : W)
        → ((notify pvac is_live call es ts w).1 ≡ announce es (filter (is_live w) ts) w)
          × (filter (is_live w) (notify pvac is_live call es ts w).0 ≡ filter (is_live w) ts)
    unfolding notify
    notify-announce [] ts w = (refl, refl)
    notify-announce (e ∷ es) [] w = (refl, refl)
    notify-announce (e ∷ es) (h ∷ hs) w =
        let b = broadcast-call_all is_live call keep (e ∷ es) (h ∷ hs) w in
        (ap (λ r. r.1) b, ap (λ r. filter (is_live w) r.0) b ∙ filter_idem (is_live w) (h ∷ hs))

    -- One channel of a round: what becomes of it, of the handlers and of the world.
    pub process_iterator-announce :
        (c : EpicsChannel pvac) (ts : List H) (w : W)
        → let (c', ts', w') = process_iterator pvac is_live call c ts w in
          (c' ≡ (poll_channel pvac c).1)
          × (filter (is_live w) ts' ≡ filter (is_live w) ts)
          × (w' ≡ announce (poll_channel pvac c).0 (filter (is_live w) ts) w)
    unfolding process_iterator
    process_iterator-announce c ts w =
        let (world, kept) = notify-announce (poll_channel pvac c).0 ts w in (refl, kept, world)

    process_all-announce :
        (map : StdMap String (EpicsChannel pvac)) (ts : List H) (w : W)
        → (process_all pvac is_live call map ts w).2 ≡ announce_all (filter (is_live w) ts) map w
    unfolding process_all process_iterator
    process_all-announce [] ts w = refl
    process_all-announce ((k, c) ∷ rest) ts w =
        let es = (poll_channel pvac c).0 in
        let (world, kept) = notify-announce es ts w in
        process_all-announce rest _ _
        ∙ rw (world, announce-is_live es (filter (is_live w) ts) w, kept) refl

    targets-process_all :
        (map : StdMap String (EpicsChannel pvac)) (ts : List H) (w : W)
        → filter (is_live w) (process_all pvac is_live call map ts w).1 ≡ filter (is_live w) ts
    unfolding process_all process_iterator
    targets-process_all [] ts w = refl
    targets-process_all ((k, c) ∷ rest) ts w =
        let es = (poll_channel pvac c).0 in
        let (world, kept) = notify-announce es ts w in
        let (ts', w') = notify pvac is_live call es ts w in
        let same : is_live w' ≡ is_live w =
          ap is_live world ∙ announce-is_live es (filter (is_live w) ts) w in
        ap (λ p. filter p (process_all pvac is_live call rest ts' w').1) (sym same)
        ∙ targets-process_all rest ts' w'
        ∙ ap (λ p. filter p ts') same
        ∙ kept

    -- The live handlers stay in their order.
    pub targets-task_round :
        (m : Manager pvac H) (w : W)
        → filter (is_live w) (task_round pvac is_live call m w).0.targets
          ≡ filter (is_live w) m.targets
    unfolding task_round
    targets-task_round m w = targets-process_all m.channel_map m.targets w

    -- If no handler drops a token, one round polls the channels in the order of their names and
    -- hands the events of each channel that has any to every live handler, once, in the order of
    -- registration.
    pub task_round-announce_all :
        (m : Manager pvac H) (w : W)
        → (task_round pvac is_live call m w).1
          ≡ announce_all (filter (is_live w) m.targets) m.channel_map w
    unfolding task_round
    task_round-announce_all m w = process_all-announce m.channel_map m.targets w

  find-process_all :
      (map : StdMap String (EpicsChannel pvac)) (ts : List H) (w : W) (j : String)
      → find j (process_all pvac is_live call map ts w).0
        ≡ Option.map (λ c. (poll_channel pvac c).1) (find j map)
  unfolding process_all process_iterator find
  find-process_all [] ts w j = refl
  find-process_all ((k, c) ∷ rest) ts w j = elim (Bool-cases (k == j)) [
    | inl e ↦ rw e
    | inr e ↦ rw e (find-process_all rest _ _ j)
  ]

  -- A round keeps the channels, each with its polled subscription.
  pub find-task_round :
      (m : Manager pvac H) (w : W) (j : String)
      → find j (task_round pvac is_live call m w).0.channel_map
        ≡ Option.map (λ c. (poll_channel pvac c).1) (find j m.channel_map)
  unfolding task_round
  find-task_round m w j = find-process_all m.channel_map m.targets w j
