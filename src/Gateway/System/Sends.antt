-- ===== src/Gateway/System/Sends.antt =====
-- What the program sends, as a function of what its steps tell.
use mathlib.Core.Path.{fun_ext, ap₂}
use ekg.Prelude.{◌≡◌, refl, sym, ap, ◌∙◌, String, Option, List, [], ◌∷◌, ◌++◌}
use ekg.Common.Outcome.{ok}
use ekg.Command.Types.{
  Command, AquireFields, as_aquire, aquire_command, get_command, put_command, info_command,
}
use ekg.Consumer.{JsonLibrary, Subscriber}
use ekg.Data.Orm.{Orm}
use ekg.Epics.Channel.{Pvac}
use ekg.Epics.Manager.Targets.{targets-monitor_channel}
use ekg.Gateway.Delivery.{produce_all-append}
use ekg.Gateway.Pipeline.{acquires}
use ekg.Gateway.System.{
  Program, Label, took, began, ended, locked, unlocked, polled, poll_next, start_task, Step, takes,
  begins, ends, locks, polls, unlocks, Run, stays, goes,
}
use ekg.Gateway.System.Polls.{process_iterator-Delivers}
use ekg.Node.Controller.Dispatch.{aquire_fields}
use ekg.Node.Worker.{MonitorMessage, call_monitor}
use ekg.Node.Worker.Events.{all_messages}
use ekg.Node.Worker.Overlap.{begin, end}
use ekg.Node.Worker.Overlap.Routes.{topics, route_all, topics-update_map}
use ekg.Pubsub.Publisher.{Producer}
use ekg.Pubsub.Publisher.Queueing.{produce_all}

abbrev pub Routes : Type 0
Routes = String → List String

-- The fields of a command that `as_aquire` reads.
pub as_aquire-acquires :
    (c : Command) (f : AquireFields) → as_aquire c ≡ ok f → acquires (c ∷ []) ≡ f ∷ []
unfolding as_aquire
as_aquire-acquires (aquire_command b a topic) f h =
    let same : aquire_fields b a topic ≡ f = cc in ap (λ x. x ∷ []) same
as_aquire-acquires (get_command b topic) f h = cc
as_aquire-acquires (put_command b value) f h = cc
as_aquire-acquires (info_command b topic) f h = cc

module _ {pvac : Pvac} where
  -- The commands that the labels tell of: those that were taken, and those whose tasks began.
  abbrev pub taken : List (Label pvac) → List Command
  taken [] = []
  taken (took cs ∷ ls) = cs ++ taken ls
  taken (began c ∷ ls) = taken ls
  taken (ended name ∷ ls) = taken ls
  taken (locked ∷ ls) = taken ls
  taken (unlocked ∷ ls) = taken ls
  taken (polled es ∷ ls) = taken ls

  abbrev pub begun : List (Label pvac) → List Command
  begun [] = []
  begun (took cs ∷ ls) = begun ls
  begun (began c ∷ ls) = c ∷ begun ls
  begun (ended name ∷ ls) = begun ls
  begun (locked ∷ ls) = begun ls
  begun (unlocked ∷ ls) = begun ls
  begun (polled es ∷ ls) = begun ls

  -- What a label does to the topics.
  abbrev pub routed : Label pvac → Routes → Routes
  routed (began c) f = route_all (acquires (c ∷ [])) f
  routed _ f = f

  pub begun_more :
      (l : Label pvac) (ls : List (Label pvac)) (f : Routes)
      → route_all (acquires (begun ls)) (routed l f) ≡ route_all (acquires (begun (l ∷ ls))) f
  begun_more (took cs) ls f = refl
  begun_more (began (aquire_command b a topic)) ls f = refl
  begun_more (began (get_command b topic)) ls f = refl
  begun_more (began (put_command b value)) ls f = refl
  begun_more (began (info_command b topic)) ls f = refl
  begun_more (ended name) ls f = refl
  begun_more locked ls f = refl
  begun_more unlocked ls f = refl
  begun_more (polled es) ls f = refl

module _ (pvac : Pvac) (value_of : Option (Pvac.Structure pvac) → String) where
  -- The messages that a label asks for, with these topics.
  abbrev pub asked : Label pvac → Routes → List MonitorMessage
  asked (polled es) f = all_messages pvac value_of f es
  asked _ f = []

  abbrev pub sends : Routes → List (Label pvac) → List MonitorMessage
  sends f [] = []
  sends f (l ∷ ls) = asked l f ++ sends (routed l f) ls

module _ (orm : Orm) (pvac : Pvac) (value_of : Option (Pvac.Structure pvac) → String)
    (json : JsonLibrary) {B Q : Type 0} (subscriber : Subscriber B) (producer : Producer Q) where
  abbrev pub routes : Program orm pvac B Q → Routes
  routes s = topics pvac s.pool.worker

  -- The worker's handler is the only one.
  abbrev pub HasHandler : Program orm pvac B Q → Type 0
  HasHandler s = s.pool.worker.epics_service_manager.targets ≡ tt ∷ []

  Sends : List MonitorMessage → Routes → Program orm pvac B Q → Program orm pvac B Q → Type 0
  Sends ms f s t = (t.queue ≡ produce_all producer ms s.queue) × (routes t ≡ f) × HasHandler t

  Step-Sends :
      {s t : Program orm pvac B Q} {l : Label pvac}
      → Step orm pvac value_of json subscriber producer s l t
      → HasHandler s
      → Sends (asked pvac value_of l (routes s)) (routed l (routes s)) s t
  unfolding Sends start_task begin end call_monitor poll_next
  Step-Sends (takes s cs log b' n' h e) one = (refl, refl, one)
  Step-Sends (begins s before after c f e typed h) one = (
    refl,
    fun_ext (topics-update_map pvac f s.pool.worker)
        ∙ sym (ap (λ fs. route_all fs (routes s)) (as_aquire-acquires c f h)),
    one,
  )
  Step-Sends (ends s before after name activate free e d) one = (
    refl,
    refl,
    targets-monitor_channel pvac name activate s.pool.worker.epics_service_manager ∙ one,
  )
  Step-Sends (locks s free) one = (refl, refl, one)
  Step-Sends (polls s behind ahead k c e) one =
      let w = s.pool.worker in
      let (_, handler, sent, kept) =
        process_iterator-Delivers pvac value_of producer c w.epics_service_manager.targets
          (w.channel_topics_map, s.queue) one in
      (sent, fun_ext kept, handler)
  Step-Sends (unlocks s behind e) one = (refl, refl, one)

  pub Run-sends :
      {s t : Program orm pvac B Q} {ls : List (Label pvac)}
      → Run orm pvac value_of json subscriber producer s ls t
      → HasHandler s
      → (t.queue ≡ produce_all producer (sends pvac value_of (routes s) ls) s.queue)
        × (routes t ≡ route_all (acquires (begun ls)) (routes s))
  unfolding Sends
  Run-sends stays one = (refl, refl)
  Run-sends (goes {s} {t} {u} {l} {ls} st r) one =
      let (sent, now, handler) = Step-Sends st one in
      let (later, then) = Run-sends r handler in
      (
        later
            ∙ ap₂ (λ f q. produce_all producer (sends pvac value_of f ls) q) now sent
            ∙ sym (
                produce_all-append pvac value_of producer (asked pvac value_of l (routes s)) _
                  s.queue),
        then ∙ ap (route_all (acquires (begun ls))) now ∙ begun_more l ls (routes s),
      )
