-- ===== src/Epics/Manager/Total.antt =====
-- Calls of `monitorChannel` over a client library whose functions return or throw.
use ekg.Prelude.{
  ◌≡◌, refl, ap, subst, String, Bool, true, false, Option-cases, inl, inr, some, String_key,
}
use ekg.Prelude.StdMap.{find}
use ekg.Common.Outcome.{
  Outcome, ok, throws, undefined, ◌>>=◌, >>=-eq-ok, NeverUndefined, >>=-NeverUndefined,
  map-NeverUndefined,
}
use ekg.Epics.Channel.{Pvac, EpicsChannel, create, connect, start_monitor}
use ekg.Epics.Manager.{Manager, add_channel, monitor_channel}
use ekg.Epics.Manager.Channels.{start, Adds, add_channel-Adds, add_channel_present}
use ekg.Epics.Manager.Invariant.{IsDefined}

-- The functions of the client library return or throw.
pub record IsTotal (pvac : Pvac) : Type 0 where
  pub open_returns : (protocol : String) → NeverUndefined (pvac.open_provider protocol)
  pub connect_returns :
      (p : Pvac.Provider pvac) (name address : String)
      → NeverUndefined (pvac.connect_to p name address)
  pub subscribe_returns : (c : Pvac.Client pvac) → NeverUndefined (pvac.subscribe c)

module _ (pvac : Pvac) (total : IsTotal pvac) where
  start_monitor-NeverUndefined :
      (c d : EpicsChannel pvac) → connect pvac c ≡ ok d → NeverUndefined (start_monitor pvac d)
  unfolding connect start_monitor
  start_monitor-NeverUndefined c d e =
      let (client, _, made) =
        >>=-eq-ok (pvac.connect_to c.provider c.channel_name c.address)
          (λ x. ok (record c { channel = some x })) e in
      let same : record c { channel = some client } ≡ d = cc made in
      subst (λ x. NeverUndefined (start_monitor pvac x)) same
        (map-NeverUndefined (pvac.subscribe client) _ (total.subscribe_returns client))

  start-NeverUndefined : (protocol name : String) → NeverUndefined (start pvac protocol name)
  unfolding create connect
  start-NeverUndefined protocol name =
      >>=-NeverUndefined (create pvac protocol name >>= connect pvac) (start_monitor pvac)
        (>>=-NeverUndefined (create pvac protocol name) (connect pvac)
          (map-NeverUndefined (pvac.open_provider protocol) _ (total.open_returns protocol))
          (λ c h.
            map-NeverUndefined (pvac.connect_to c.provider c.channel_name c.address) _
              (total.connect_returns c.provider c.channel_name c.address)))
        (λ d h.
          let (c, _, connected) = >>=-eq-ok (create pvac protocol name) (connect pvac) h in
          start_monitor-NeverUndefined c d connected)

  Adds-IsDefined :
      {H : Type 0} (name : String) (m : Manager pvac H) (o : Outcome (EpicsChannel pvac))
      (r : Outcome (Unit {0}) × Manager pvac H)
      → NeverUndefined o
      → Adds pvac name m o r
      → IsDefined pvac r
  Adds-IsDefined name m (ok c) (r, m') d (a, _, _) u e = cc
  Adds-IsDefined name m (throws x) (r, m') d a u e = cc (ap (λ q. q.0) a)
  Adds-IsDefined name m (undefined w) (r, m') d a u e = d w refl

  -- No call of `monitorChannel` is undefined then.
  pub monitor_channel-IsDefined :
      {H : Type 0} (name : String) (activate : Bool) (m : Manager pvac H)
      → IsDefined pvac (monitor_channel pvac name activate m)
  unfolding monitor_channel
  monitor_channel-IsDefined name false m u undef = cc
  monitor_channel-IsDefined name true m u undef = elim (Option-cases (find name m.channel_map)) [
    | inl e ↦
        Adds-IsDefined name m (start pvac "pva" name) (add_channel pvac name "pva" m)
          (start-NeverUndefined "pva" name) (add_channel-Adds pvac name m e "pva") u undef
    | inr (c, e) ↦ cc (ap (λ r. r.0) (add_channel_present pvac name "pva" m (λ q. cc)))
  ]
