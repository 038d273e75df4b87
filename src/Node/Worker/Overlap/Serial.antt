-- ===== src/Node/Worker/Overlap/Serial.antt =====
-- When the tasks of one channel do not overlap, the manager monitors what it should.
use ekg.Prelude.{
  ◌≡◌, refl, sym, ap, ◌∙◌, String, Bool, false, List, [], ◌∷◌, ◌++◌, String_key, ◌==◌,
  if◌then◌else◌, arith, inl, inr, ◌⊎◌, ==_cases, subst, append-nil,
}
use ekg.Command.Types.{AquireFields}
use ekg.Epics.Channel.{Pvac}
use ekg.Node.Worker.{WorkerState, update_map, call_monitor, is_filled}
use ekg.Node.Worker.Sync.{monitors, monitors-monitor_channel}
use ekg.Node.Worker.Overlap.{Tasks, Returns, flags, begin, end, Runs, rest, begins, ends}
use ekg.Node.Worker.Overlap.Routes.{topics, topics-update_map, flag-update_map}

flags-append :
    (j : String) (xs ys : List (String × Bool)) → flags j (xs ++ ys) ≡ flags j xs ++ flags j ys
flags-append j [] ys = refl
flags-append j ((n, a) ∷ xs) ys = ground (arith, flags-append j xs ys)

-- One list around an element is another of one element.
only : (xs ys : List Bool) (a b : Bool) → xs ++ a ∷ ys ≡ b ∷ [] → (a ≡ b) × (xs ++ ys ≡ [])
only [] ys a b e = (cc, cc)
only (x ∷ []) ys a b e = cc
only (x ∷ y ∷ xs) ys a b e = cc

never : (xs ys : List Bool) (a : Bool) → xs ++ a ∷ ys ≡ [] → ⊥
never [] ys a e = cc
never (x ∷ xs) ys a e = cc

module _ (pvac : Pvac) {H : Type 0} where
  -- No task of the channel is in flight.
  abbrev pub IsFree : AquireFields → Tasks pvac H → Type 0
  IsFree c s = flags c.channel_name s.in_flight ≡ []

  abbrev pub filled : WorkerState pvac H → String → Bool
  filled w j = is_filled (topics pvac w j)

  -- A channel with no task in flight is monitored exactly when it has topics; otherwise one task is
  -- in flight, and takes along whether the channel has topics.
  abbrev pub IsSteady : Tasks pvac H → Type 0
  IsSteady s =
      (j : String)
      → ((flags j s.in_flight ≡ [])
          × (monitors pvac s.worker.epics_service_manager j ≡ filled s.worker j))
        ⊎ (flags j s.in_flight ≡ filled s.worker j ∷ [])

  flags-begin :
      (c : AquireFields) (s : Tasks pvac H) (j : String)
      → flags j (begin pvac c s).in_flight
        ≡ flags j s.in_flight
          ++ (if c.channel_name == j
              then filled (begin pvac c s).worker c.channel_name ∷ []
              else [])
  unfolding begin update_map
  flags-begin c s j =
      flags-append j s.in_flight _
      ∙ ap (λ a. flags j s.in_flight ++ (if c.channel_name == j then a ∷ [] else []))
          (flag-update_map pvac c s.worker)

  filled-begin :
      (c : AquireFields) (s : Tasks pvac H) (j : String)
      → (c.channel_name == j) ≡ false
      → filled s.worker j ≡ filled (begin pvac c s).worker j
  unfolding begin update_map
  filled-begin c s j miss = ap is_filled (sym (topics-update_map pvac c s.worker j ∙ rw miss refl))

  monitors-begin :
      (c : AquireFields) (s : Tasks pvac H) (j : String)
      → monitors pvac (begin pvac c s).worker.epics_service_manager j
        ≡ monitors pvac s.worker.epics_service_manager j
  unfolding begin update_map
  monitors-begin c s j = refl

  pub begin-IsSteady :
      (c : AquireFields) (s : Tasks pvac H) → IsFree c s → IsSteady s → IsSteady (begin pvac c s)
  begin-IsSteady c s free v j = elim (==_cases c.channel_name j) [
    | inl (hit, e) ↦
        let free_j = subst (λ n. flags n s.in_flight ≡ []) e free in
        inr
          (flags-begin c s j ∙ rw (hit, free_j) (ap (λ n. filled (begin pvac c s).worker n ∷ []) e))
    | inr (miss, _) ↦
        let same : flags j (begin pvac c s).in_flight ≡ flags j s.in_flight =
          flags-begin c s j ∙ rw miss (append-nil _) in
        let kept = filled-begin c s j miss in
        elim (v j) [
          | inl (f, m) ↦ inl (same ∙ f, monitors-begin c s j ∙ m ∙ kept)
          | inr f ↦ inr (same ∙ f ∙ ap (λ b. b ∷ []) kept)
        ]
  ]

  module _ (before after : List (String × Bool)) (name : String) (activate : Bool)
      (s : Tasks pvac H) (e : s.in_flight ≡ before ++ (name, activate) ∷ after) where
    flags_before_end :
        (j : String) → flags j s.in_flight ≡ flags j before ++ flags j ((name, activate) ∷ after)
    flags_before_end j = ap (flags j) e ∙ flags-append j before ((name, activate) ∷ after)

    monitors-end :
        (j : String)
        → Returns (call_monitor pvac name activate s.worker).0
        → monitors pvac (end pvac name activate (before ++ after) s).worker.epics_service_manager j
          ≡ (if name == j then activate else monitors pvac s.worker.epics_service_manager j)
    unfolding end call_monitor
    monitors-end j r =
        monitors-monitor_channel pvac name activate s.worker.epics_service_manager j r

    filled-end :
        (j : String)
        → filled s.worker j ≡ filled (end pvac name activate (before ++ after) s).worker j
    unfolding end call_monitor
    filled-end j = refl

    flags-end :
        (j : String)
        → flags j (end pvac name activate (before ++ after) s).in_flight
          ≡ flags j before ++ flags j after
    unfolding end
    flags-end j = flags-append j before after

    pub end-IsSteady :
        Returns (call_monitor pvac name activate s.worker).0
        → IsSteady s
        → IsSteady (end pvac name activate (before ++ after) s)
    end-IsSteady r v j = elim (==_cases name j) [
      | inl (hit, _) ↦
          let split : flags j s.in_flight ≡ flags j before ++ activate ∷ flags j after =
            flags_before_end j ∙ rw hit refl in
          elim (v j) [
            | inl (f, m) ↦ absurd (never (flags j before) (flags j after) activate (sym split ∙ f))
            | inr f ↦
                let (a, none_left) =
                  only (flags j before) (flags j after) activate (filled s.worker j)
                    (sym split ∙ f) in
                inl (flags-end j ∙ none_left, monitors-end j r ∙ rw hit (a ∙ filled-end j))
          ]
      | inr (miss, _) ↦
          let same : flags j (end pvac name activate (before ++ after) s).in_flight
              ≡ flags j s.in_flight =
            flags-end j ∙ sym (flags_before_end j ∙ rw miss refl) in
          let unchanged = monitors-end j r ∙ rw miss refl in
          elim (v j) [
            | inl (f, m) ↦ inl (same ∙ f, unchanged ∙ m ∙ filled-end j)
            | inr f ↦ inr (same ∙ f ∙ ap (λ b. b ∷ []) (filled-end j))
          ]
    ]

  -- Tasks of different channels may overlap as they like: if no task begins while another of its
  -- channel is in flight, and every call of `monitorChannel` returns, then at any time each channel
  -- with no task in flight is monitored exactly when it has topics, from a state where this holds.
  Runs-IsSteady :
      {s t : Tasks pvac H} {cs : List AquireFields}
      → Runs pvac IsFree s cs t
      → IsSteady s
      → IsSteady t
  Runs-IsSteady rest v = v
  Runs-IsSteady {s} (begins c free r) v = Runs-IsSteady r (begin-IsSteady c s free v)
  Runs-IsSteady {s} (ends before after name activate e returned r) v =
      Runs-IsSteady r (end-IsSteady before after name activate s e returned v)
