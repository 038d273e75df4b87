-- ===== src/Gateway/System/Takes.antt =====
-- What a round of the command controller does to the node controller, whatever the commit answers.
use ekg.Prelude.{◌≡◌, refl, sym, ap, List, [], ◌∷◌, ◌++◌, All, filter, append-nil, inl, inr, subst}
use ekg.Common.Log.{LogLine}
use ekg.Common.Outcome.{ok}
use ekg.Command.Types.{Command, IsWellTyped}
use ekg.Consumer.{JsonLibrary, Subscriber, handle_batch, call_handler, consume_round}
use ekg.Consumer.Described.{handle_batch-IsWellTyped}
use ekg.Consumer.Returned.{consume_round-world}
use ekg.Data.Orm.{Orm}
use ekg.Gateway.Pipeline.{handler, both, handler_takes}
use ekg.Node.Controller.{NodeController}
use ekg.Node.Controller.Dispatch.{IsRegistered, submit_command-Takes, is_aquire}

module _ {B : Type 0} (orm : Orm) (json : JsonLibrary) (subscriber : Subscriber B) where
  -- The controller has taken these commands.
  abbrev pub Took : List Command → NodeController orm → NodeController orm → Type 0
  Took cs n n' = (n'.tasks ≡ n.tasks ++ filter is_aquire cs) × IsRegistered n'.worker_resolver

  call_handler-Took :
      (cs : List Command) (b : B) (n : NodeController orm)
      → All IsWellTyped cs
      → IsRegistered n.worker_resolver
      → (m : NodeController orm) × (call_handler json
            (both orm json subscriber)
            (handler orm json)
            cs
            (b, n)
          ≡ (ok tt, (b, m)))
        × (Took cs n m)
  unfolding call_handler
  call_handler-Took [] b n h i = (n, refl, (sym (append-nil n.tasks), i))
  call_handler-Took (c ∷ cs) b n h i =
      let (m, e, t, j) = submit_command-Takes orm json.serialize (c ∷ cs) n h i in
      (m, handler_takes orm json (c ∷ cs) b n m e, (t, j))

  -- Whether its commit succeeds or not, a round that ends without an exception pushes to the pool
  -- the acquire commands of its messages, in their order, behind the tasks that wait there.
  pub consume_round-Took :
      (b b' : B) (n n' : NodeController orm) (cs : List Command) (log : List LogLine)
      → (handle_batch json (subscriber.get_msg b).0).0 ≡ ok cs
      → IsRegistered n.worker_resolver
      → consume_round json (both orm json subscriber) (handler orm json) (b, n) ≡ (ok log, (b', n'))
      → Took cs n n' × All IsWellTyped cs
  consume_round-Took b b' n n' cs log h i e =
      let typed = handle_batch-IsWellTyped json (subscriber.get_msg b).0 cs h in
      let (m, called, took) = call_handler-Took cs (subscriber.get_msg b).1 n typed i in
      let same : m ≡ n' =
        elim (consume_round-world json (both orm json subscriber) (handler orm json) (b, n)
          ((subscriber.get_msg b).1, m) (b', n') cs log h called e) [
            | inl p ↦ ap (λ w. w.1) (sym p)
            | inr p ↦ ap (λ w. w.1) (sym p)
          ] in
      (subst (Took cs n) same took, typed)
