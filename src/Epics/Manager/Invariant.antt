-- ===== src/Epics/Manager/Invariant.antt =====
-- Every channel in the map is connected and subscribed, under its own name.
use ekg.Prelude.{
  ◌≡◌, refl, sym, subst, ◌∙◌, ap, String, Bool, true, false, none, some, String_key, arith,
  Option-cases, inl, inr, ◌≢◌, ==_cases,
}
use ekg.Prelude.StdMap.{find}
use ekg.Common.Outcome.{Outcome, ok, throws, undefined, ◌>>=◌, >>=-eq-ok}
use ekg.Epics.Channel.{Pvac, EpicsChannel, create, connect, start_monitor}
use ekg.Epics.Manager.{Manager, poll_channel, monitor_channel, add_channel, remove_channel}
use ekg.Epics.Manager.Channels.{
  start, Adds, add_channel-Adds, add_channel_present, find-remove_channel,
}

abbrev pub IsStartedAs : (pvac : Pvac) → String → EpicsChannel pvac → Type 0
IsStartedAs pvac name c = (c.channel_name ≡ name) × (c.mon ≢ none)

channel_name-create :
    (pvac : Pvac) (protocol name : String) (c : EpicsChannel pvac)
    → create pvac protocol name ≡ ok c
    → c.channel_name ≡ name
unfolding create
channel_name-create pvac protocol name c h = ground arith

channel_name-connect :
    (pvac : Pvac) (b c : EpicsChannel pvac)
    → connect pvac b ≡ ok c
    → c.channel_name ≡ b.channel_name
unfolding connect
channel_name-connect pvac b c h = ground arith

start_monitor-started :
    (pvac : Pvac) (b c : EpicsChannel pvac)
    → start_monitor pvac b ≡ ok c
    → (c.channel_name ≡ b.channel_name) × (c.mon ≢ none)
unfolding start_monitor
start_monitor-started pvac b c h = ground arith

start-IsStartedAs :
    (pvac : Pvac) (protocol name : String) (c : EpicsChannel pvac)
    → start pvac protocol name ≡ ok c
    → IsStartedAs pvac name c
start-IsStartedAs pvac protocol name c h =
    let (d, hd, h1) =
      >>=-eq-ok (create pvac protocol name >>= connect pvac) (start_monitor pvac) h in
    let (b, hb, h2) = >>=-eq-ok (create pvac protocol name) (connect pvac) hd in
    let (same, started) = start_monitor-started pvac d c h1 in
    (same ∙ channel_name-connect pvac b d h2 ∙ channel_name-create pvac protocol name b hb, started)

pub poll_channel-IsStartedAs :
    (pvac : Pvac) (name : String) (c : EpicsChannel pvac)
    → IsStartedAs pvac name c
    → IsStartedAs pvac name (poll_channel pvac c).1
unfolding poll_channel
poll_channel-IsStartedAs pvac name c h = ground arith

module _ (pvac : Pvac) {H : Type 0} where
  abbrev pub IsStarted : Manager pvac H → Type 0
  IsStarted m =
      (j : String) (c : EpicsChannel pvac) → find j m.channel_map ≡ some c → IsStartedAs pvac j c

  -- The call did not run into undefined behaviour.
  abbrev pub IsDefined : Outcome (Unit {0}) × Manager pvac H → Type 0
  IsDefined r = (u : String) → r.0 ≢ undefined u

  Adds-IsStarted :
      (name : String) (m : Manager pvac H)
      → IsStarted m
      → (o : Outcome (EpicsChannel pvac)) → start pvac "pva" name ≡ o
      → (r : Outcome (Unit {0}) × Manager pvac H) → IsDefined r
      → Adds pvac name m o r
      → IsStarted r.1
  Adds-IsStarted name m inv (ok c) s (r, m') defined (_, _, lookups) j d f =
      elim (==_cases name j) [
        | inl (hit, same) ↦
            let e : c ≡ d = ground (arith, lookups j) in
            subst (IsStartedAs pvac j) e
              (subst (λ n. IsStartedAs pvac n c) same (start-IsStartedAs pvac "pva" name c s))
        | inr (miss, _) ↦ inv j d (ground (arith, lookups j))
      ]
  Adds-IsStarted name m inv (throws e) s (r, m') defined a j d f =
      inv j d (ap (λ q. find j q.1.channel_map) (sym a) ∙ f)
  Adds-IsStarted name m inv (undefined u) s (r, m') defined a j d f = absurd (defined u a)

  add_channel-IsStarted :
      (name : String) (m : Manager pvac H)
      → IsDefined (add_channel pvac name "pva" m)
      → IsStarted m
      → IsStarted (add_channel pvac name "pva" m).1
  add_channel-IsStarted name m d inv = elim (Option-cases (find name m.channel_map)) [
    | inr (c, e) ↦
        subst (λ r. IsStarted r.1) (sym (add_channel_present pvac name "pva" m (λ q. cc))) inv
    | inl e ↦
        Adds-IsStarted name m inv (start pvac "pva" name) refl (add_channel pvac name "pva" m) d
          (add_channel-Adds pvac name m e "pva")
  ]

  remove_channel-IsStarted :
      (name : String) (m : Manager pvac H) → IsStarted m → IsStarted (remove_channel pvac name m)
  remove_channel-IsStarted name m inv j c f =
      ground (arith, find-remove_channel pvac name j m, inv j c)

  pub monitor_channel-IsStarted :
      (name : String) (activate : Bool) (m : Manager pvac H)
      → IsDefined (monitor_channel pvac name activate m)
      → IsStarted m
      → IsStarted (monitor_channel pvac name activate m).1
  unfolding monitor_channel
  monitor_channel-IsStarted name true m d inv = add_channel-IsStarted name m d inv
  monitor_channel-IsStarted name false m d inv = remove_channel-IsStarted name m inv
