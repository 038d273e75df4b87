-- ===== src/Gateway/System/Conserved.antt =====
-- The tasks of the pool: what was pushed, what began and what waits.
use mathlib.Core.List.Permᴰ
use mathlib.Core.List.{Permᴰ}
use ekg.Prelude.{
  String, Option, refl, sym, ap, subst, ◌∙◌, List, ◌∷◌, ◌++◌, filter, filter-append, append_assoc,
}
use ekg.Command.Types.{Command}
use ekg.Consumer.{JsonLibrary, Subscriber}
use ekg.Data.Orm.{Orm}
use ekg.Epics.Channel.{Pvac}
use ekg.Gateway.System.{
  Program, Label, poll_next, start_task, Step, takes, begins, ends, locks, polls, unlocks, Run,
  stays, goes,
}
use ekg.Gateway.System.Invariant.{IsSound, Step-IsSound}
use ekg.Gateway.System.Sends.{taken, begun}
use ekg.Gateway.System.Takes.{consume_round-Took}
use ekg.Node.Controller.Dispatch.{is_aquire}
use ekg.Pubsub.Publisher.{Producer}

module _ (orm : Orm) (pvac : Pvac) (value_of : Option (Pvac.Structure pvac) → String)
    (json : JsonLibrary) {B Q : Type 0} (subscriber : Subscriber B) (producer : Producer Q) where
  -- A step in front of others, which leave these tasks.
  Step-Perm :
      {s t : Program orm pvac B Q} {l : Label pvac} (ls : List (Label pvac)) (left : List Command)
      → Step orm pvac value_of json subscriber producer s l t
      → IsSound orm pvac value_of json subscriber producer s
      → Permᴰ (begun ls ++ left) (t.node.tasks ++ filter is_aquire (taken ls))
      → Permᴰ (begun (l ∷ ls) ++ left) (s.node.tasks ++ filter is_aquire (taken (l ∷ ls)))
  unfolding start_task poll_next
  Step-Perm ls left (takes s cs log b' n' h e) i p =
      let ((tasks, _), _) =
        consume_round-Took orm json subscriber s.broker b' s.node n' cs log h i.registered e in
      subst (Permᴰ (begun ls ++ left))
        (ap (λ ts. ts ++ filter is_aquire (taken ls)) tasks
          ∙ append_assoc s.node.tasks _ _
          ∙ ap (λ ts. s.node.tasks ++ ts) (sym (filter-append is_aquire cs (taken ls))))
        p
  Step-Perm ls left (begins s before after c f e typed h) i p =
      let pushed = filter is_aquire (taken ls) in
      subst (λ ts. Permᴰ (c ∷ begun ls ++ left) (ts ++ pushed)) (sym e)
        (subst (Permᴰ (c ∷ begun ls ++ left)) (sym (append_assoc before (c ∷ after) pushed)) (
          Permᴰ.trans (Permᴰ.cons refl p) (
            subst (λ ts. Permᴰ (c ∷ ts) (before ++ c ∷ (after ++ pushed)))
              (sym (append_assoc before after pushed))
              (Permᴰ.symm (Permᴰ.middle c before (after ++ pushed))))))
  Step-Perm ls left (ends s before after name activate free e d) i p = p
  Step-Perm ls left (locks s free) i p = p
  Step-Perm ls left (polls s behind ahead k c e) i p = p
  Step-Perm ls left (unlocks s behind e) i p = p

  pub Run-Permᴰ :
      {s t : Program orm pvac B Q} {ls : List (Label pvac)}
      → Run orm pvac value_of json subscriber producer s ls t
      → IsSound orm pvac value_of json subscriber producer s
      → Permᴰ (begun ls ++ t.node.tasks) (s.node.tasks ++ filter is_aquire (taken ls))
  Run-Permᴰ {s} stays i = Permᴰ.symm (Permᴰ.append-nil s.node.tasks)
  Run-Permᴰ {t} (goes {ls} st r) i =
      Step-Perm ls t.node.tasks st i
        (Run-Permᴰ r (Step-IsSound orm pvac value_of json subscriber producer st i))
