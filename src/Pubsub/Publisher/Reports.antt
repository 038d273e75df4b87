-- ===== src/Pubsub/Publisher/Reports.antt =====
-- Delivery reports and callbacks.
use mathlib.Core.Option.{get_or}
use ekg.Prelude.{
  ◌≡◌, ap, ◌∙◌, String, true, false, Option, none, some, String_key, arith, eq_iff, ==_refl,
}
use ekg.Prelude.StdMap.{
  find, insert, at, find-at, at-eq-get_or, insert-present, insert-absent, find-insert,
}
use ekg.Node.Worker.{MonitorMessage}
use ekg.Pubsub.Publisher.{
  Callbacks, Status, persisted, not_persisted, possibly_persisted, on_sent, on_error,
  event_of_status, report_to, dr_cb, set_call_back_for_req_type,
}

module _ {C : Type 0} where
  -- The callback that a report for a request type reaches.
  abbrev pub callback_of : String → Callbacks C → Option C
  callback_of t cs = get_or (find t cs) none

  reported :
      (m : MonitorMessage) (status : Status) (cs : Callbacks C) (o : Option C)
      → callback_of m.request_type cs ≡ o
      → (dr_cb (some m) status cs).0 ≡ report_to o status m
  unfolding dr_cb
  reported m status cs o h =
      ap (λ c. report_to c status m) (at-eq-get_or m.request_type none cs ∙ h)

  callback_of-dr_cb :
      (m : MonitorMessage) (status : Status) (cs : Callbacks C) (t : String)
      → callback_of t (dr_cb (some m) status cs).1 ≡ callback_of t cs
  unfolding dr_cb
  callback_of-dr_cb m status cs t =
      ground (arith, find-at m.request_type t none cs, eq_iff m.request_type t)

  -- If a callback is registered for the request type of a message, a report on the message calls
  -- it once: with `OnSent` for a persisted message, and with `OnError` for one that is not or only
  -- possibly persisted. If none is, no report calls any. And no report changes which callback a
  -- type has.
  pub dr_cb-callback_of :
      (m : MonitorMessage) (cs : Callbacks C)
      → ((callback : C)
          → callback_of m.request_type cs ≡ some callback
          → ((dr_cb (some m) persisted cs).0 ≡ some (callback, on_sent, m))
            × ((dr_cb (some m) not_persisted cs).0 ≡ some (callback, on_error, m))
            × ((dr_cb (some m) possibly_persisted cs).0 ≡ some (callback, on_error, m)))
        × (callback_of m.request_type cs ≡ none
            → (status : Status) → (dr_cb (some m) status cs).0 ≡ none)
        × ((status : Status) (t : String)
            → callback_of t (dr_cb (some m) status cs).1 ≡ callback_of t cs)
  unfolding report_to event_of_status
  dr_cb-callback_of m cs = (
    λ callback h. (
      reported m persisted cs (some callback) h,
      reported m not_persisted cs (some callback) h,
      reported m possibly_persisted cs (some callback) h,
    ),
    λ h status. reported m status cs none h,
    λ status t. callback_of-dr_cb m status cs t,
  )

  -- A callback that is registered for a type that has no entry is accepted, and is the one that
  -- reports of this type reach then.
  pub set_call_back-callback_of :
      (t : String) (callback : C) (cs : Callbacks C)
      → find t cs ≡ none
      → ((set_call_back_for_req_type t callback cs).0 ≡ true)
        × (callback_of t (set_call_back_for_req_type t callback cs).1 ≡ some callback)
  unfolding set_call_back_for_req_type
  set_call_back-callback_of t callback cs h = (
    insert-absent t (some callback) cs h,
    ap (λ o. get_or o none) (find-insert t t (some callback) cs) ∙ rw (==_refl t, h),
  )

  -- Once a report for a type without a callback was served, the registration of a callback for
  -- this type is refused, and reports of the type go on reaching none.
  pub dr_cb_blocks :
      (m : MonitorMessage) (status : Status) (callback : C) (cs : Callbacks C)
      → find m.request_type cs ≡ none
      → ((set_call_back_for_req_type m.request_type callback (dr_cb (some m) status cs).1).0
          ≡ false)
        × (callback_of m.request_type
              (set_call_back_for_req_type m.request_type callback (dr_cb (some m) status cs).1).1
            ≡ none)
  unfolding set_call_back_for_req_type dr_cb
  dr_cb_blocks m status callback cs h = (
    ap (λ r. r.1) refused,
    ap (λ r. get_or (find m.request_type r.0) none) refused ∙ ap (λ o. get_or o none) added,
  )
    where
      cs' : Callbacks C
      cs' = (at m.request_type none cs).1

      added : find m.request_type cs' ≡ some none
      added = find-at m.request_type m.request_type none cs ∙ rw (==_refl m.request_type, h)

      refused : insert m.request_type (some callback) cs' ≡ (cs', false)
      refused = insert-present m.request_type (some callback) none cs' added
