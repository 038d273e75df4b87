-- ===== src/Gateway/Stream.antt =====
-- Any number of rounds of the command controller's thread on the node controller: from all the
-- messages of a queue to the topics of the worker.
use ekg.Prelude.{
  ℕ, zero, suc, ◌≡◌, sym, ap, ◌∙◌, String, List, [], ◌∷◌, ◌++◌, All, All-append, filter,
  filter-append, append-nil, append_assoc,
}
use ekg.Common.Outcome.{ok}
use ekg.Common.Log.{LogLine}
use ekg.Command.Types.{Command, IsWellTyped}
use ekg.Consumer.{Element, JsonLibrary, Subscriber, handle_batch, call_handler}
use ekg.Consumer.Batches.{consume_round_returned, consume_round_empty}
use ekg.Consumer.Described.{handle_batch-IsWellTyped}
use ekg.Consumer.Thread.{consume}
use ekg.Consumer.Thread.Offsets.{consume-suc, consume-zero}
use ekg.Data.Orm.{Orm}
use ekg.Epics.Channel.{Pvac}
use ekg.Node.Controller.{NodeController, submit_command}
use ekg.Node.Controller.Dispatch.{IsRegistered, submit_command-Takes, is_aquire}
use ekg.Node.Worker.{WorkerState, has}
use ekg.Node.Worker.Topics.{topics_of, last_wish, run_all-last_wish, AllDistinct}
use ekg.Node.Worker.Overlap.{Tasks, Runs}
use ekg.Node.Worker.Overlap.Routes.{Runs-run_all}
use ekg.Gateway.Pipeline.{acquires, handler, handler_takes, both}

-- What the broker hands out in some rounds: the commands of all batches in order, and the broker
-- behind the last round. In each round that fetches messages the commit succeeds.
pub data Fed {B : Type 0} (json : JsonLibrary) (subscriber : Subscriber B)
    : ℕ → B → List Command → B → Type 0 where
  idle : {b : B} → Fed json subscriber zero b [] b
  quiet :
      {n : ℕ} {b b1 b' : B} {cs : List Command}
      → subscriber.get_msg b ≡ ([], b1)
      → Fed json subscriber n b1 cs b'
      → Fed json subscriber (suc n) b cs b'
  batch :
      {n : ℕ} {b b1 b2 b' : B} {ds : List Command} (m : Element) (ms : List Element)
      (cs : List Command)
      → subscriber.get_msg b ≡ (m ∷ ms, b1)
      → (handle_batch json (m ∷ ms)).0 ≡ ok cs
      → subscriber.commit b1 ≡ (ok tt, b2)
      → Fed json subscriber n b2 ds b'
      → Fed json subscriber (suc n) b (cs ++ ds) b'

module _ {B : Type 0} (orm : Orm) (json : JsonLibrary) (subscriber : Subscriber B) where
  Fed-IsWellTyped :
      {n : ℕ} {b b' : B} {cs : List Command} → Fed json subscriber n b cs b' → All IsWellTyped cs
  Fed-IsWellTyped idle = tt
  Fed-IsWellTyped (quiet g f) = Fed-IsWellTyped f
  Fed-IsWellTyped (batch {ds} m ms cs g h r f) =
      All-append IsWellTyped cs ds (handle_batch-IsWellTyped json (m ∷ ms) cs h) (Fed-IsWellTyped f)

  called :
      (cs : List Command) (b : B) (n n' : NodeController orm)
      → submit_command orm json.serialize cs n ≡ ok n'
      → call_handler json (both orm json subscriber) (handler orm json) cs (b, n) ≡ (ok tt, (b, n'))
  unfolding call_handler submit_command
  called [] b n n' e = let same : n ≡ n' = cc in ap (λ x. (ok tt, (b, x))) same
  called (c ∷ cs) b n n' e = handler_takes orm json (c ∷ cs) b n n' e

  -- The node controller behind some rounds.
  Took : ℕ → B → B → List Command → NodeController orm → Type 0
  Took n b b' cs node =
      (log : List LogLine) × (node' : NodeController orm) × (consume json (both orm json subscriber)
          (handler orm json) n (b, node)
        ≡ (ok log, (b', node')))
      × (node'.tasks ≡ node.tasks ++ filter is_aquire cs)
      × IsRegistered node'.worker_resolver

  Fed-Took :
      {n : ℕ} {b b' : B} {cs : List Command}
      → Fed json subscriber n b cs b'
      → (node : NodeController orm) → IsRegistered node.worker_resolver
      → Took n b b' cs node
  unfolding Took
  Fed-Took {b} idle node i = (
    [],
    node,
    consume-zero json (both orm json subscriber) (handler orm json) (b, node),
    sym (append-nil node.tasks),
    i,
  )
  Fed-Took {b} (quiet {n} {b1} g f) node i =
      let (log, node', e, t, j) = Fed-Took f node i in
      (
        [] ++ log,
        node',
        consume-suc json (both orm json subscriber) (handler orm json) n (b, node) (b1, node) _ []
            log
            (consume_round_empty json (both orm json subscriber) (handler orm json) (b, node)
              (b1, node) (ap (λ r. (r.0, (r.1, node))) g))
            e,
        t,
        j,
      )
  Fed-Took {b} (batch {n} {b1} {b2} {ds} m ms cs g h r f) node i =
      let (next, e, pushed, j) =
        submit_command-Takes orm json.serialize cs node
          (handle_batch-IsWellTyped json (m ∷ ms) cs h) i in
      let (log, node', k, t, l) = Fed-Took f next j in
      (
        (handle_batch json (m ∷ ms)).1 ++ log,
        node',
        consume-suc json (both orm json subscriber) (handler orm json) n (b, node) (b2, next) _ _
            log
            (consume_round_returned json (both orm json subscriber) (handler orm json) (b, node)
              (b1, node) (b1, next) (b2, next) m ms cs (ap (λ r. (r.0, (r.1, node))) g) h
              (called cs b1 node next e) (ap (λ r. (r.0, (r.1, next))) r))
            k,
        t
            ∙ ap (λ ts. ts ++ filter is_aquire ds) pushed
            ∙ append_assoc node.tasks _ _
            ∙ ap (λ ts. node.tasks ++ ts) (sym (filter-append is_aquire cs ds)),
        l,
      )

module _ {B : Type 0} {H : Type 0} (orm : Orm) (pvac : Pvac) (json : JsonLibrary)
    (subscriber : Subscriber B) where
  -- From the messages to the topics. In any number of rounds whose batches let no exception
  -- through and whose commits succeed, on a node controller with the registered workers and no
  -- task, the thread ends without an exception, at the broker behind the last commit, and leaves
  -- as tasks the acquire commands of all batches in their order. In every run of the pool in which
  -- these begin in this order, each task's block on the map runs alone, and no call of
  -- `monitorChannel` throws, from topics without repetition: a channel is sent to a topic exactly
  -- when the last of the requests about the two activates it, or there is none and it was so
  -- before. The calls of `monitorChannel` may come in any order and between any blocks.
  pub consume-last_wish :
      {n : ℕ} {b b' : B} {cs : List Command} (node : NodeController orm)
      → Fed json subscriber n b cs b'
      → IsRegistered node.worker_resolver
      → node.tasks ≡ []
      → (log : List LogLine) × (node' : NodeController orm) × (consume json
            (both orm json subscriber)
            (handler orm json)
            n
            (b, node)
          ≡ (ok log, (b', node')))
        × (node'.tasks ≡ filter is_aquire cs)
        × ((w : WorkerState pvac H) (t : Tasks pvac H) (channel topic : String)
            → AllDistinct pvac w
            → Runs pvac (λ d s. Unit {0}) (record { worker = w; in_flight = [] }) (acquires cs) t
            → has topic (topics_of channel t.worker.channel_topics_map)
              ≡ last_wish channel topic
                  (acquires cs)
                  (has topic (topics_of channel w.channel_topics_map)))
  unfolding Took
  consume-last_wish {cs} node f registered idle_pool =
      let (log, node', e, pushed, _) = Fed-Took orm json subscriber f node registered in
      let tasks = pushed ∙ ap (λ ts. ts ++ filter is_aquire cs) idle_pool in
      (
        log,
        node',
        e,
        tasks,
        λ w t channel topic distinct r.
            ap (has topic) (Runs-run_all pvac r channel)
            ∙ (run_all-last_wish pvac (acquires cs) w channel topic distinct).0,
      )
