-- ===== src/Node/Controller/Dispatch.antt =====
-- Which worker gets which command.
use mathlib.Core.Option.{get_or}
use ekg.Prelude.{
  ◌≡◌, refl, sym, ap, subst, append_text, filter-append, ◌∙◌, String, Bool, true, false, Option,
  none, some, List, [], ◌∷◌, ◌++◌, filter, All, arith, append_assoc, append-nil,
}
use ekg.Prelude.StdMap.{find, place, insert, at-eq-get_or, find-at}
use ekg.Common.Outcome.{Outcome, ok, ◌>>=◌}
use ekg.Common.Log.{LogLevel, line}
use ekg.Command.Json.{Object}
use ekg.Command.Types.{
  CommandBase, CommandType_key, CommandType, type_eq_iff, monitor, get, put, info, unknown, Command,
  base, aquire_command, get_command, put_command, info_command, IsWellTyped, AquireFields,
  as_aquire,
}
use ekg.Command.Serial.{to_json_string, to_json_string-object_of, object_of}
use ekg.Data.Orm.{Orm}
use ekg.Node.Controller.{
  Worker, acquire_command_worker, get_command_worker, WorkerResolver, resolve, registered,
  NodeController, submit_one, submit_to, store_command, store_aquire, submit_command,
}

abbrev pub worker_of : CommandType → WorkerResolver → Option Worker
worker_of type r = get_or (find type r) none

abbrev pub IsRegistered : WorkerResolver → Type 0
IsRegistered r =
    (worker_of monitor r ≡ some acquire_command_worker)
    × (worker_of get r ≡ some get_command_worker)
    × (worker_of put r ≡ none)
    × (worker_of info r ≡ none)
    × (worker_of unknown r ≡ none)

pub registered-IsRegistered : IsRegistered registered
unfolding registered insert place find
registered-IsRegistered = (refl, refl, refl, refl, refl)

-- operator[] of a missing type changes the map, and no answer.
worker_of-resolve :
    (type j : CommandType) (r : WorkerResolver) → worker_of j (resolve type r).1 ≡ worker_of j r
unfolding resolve
worker_of-resolve type j r = ground (arith, find-at type j none r, type_eq_iff type j)

resolve-worker_of :
    (type : CommandType) (r : WorkerResolver) → (resolve type r).0 ≡ worker_of type r
unfolding resolve
resolve-worker_of type r = at-eq-get_or type none r

resolve-IsRegistered :
    (type : CommandType) (r : WorkerResolver) → IsRegistered r → IsRegistered (resolve type r).1
resolve-IsRegistered type r (a, b, c, d, e) = (
  worker_of-resolve type monitor r ∙ a,
  worker_of-resolve type get r ∙ b,
  worker_of-resolve type put r ∙ c,
  worker_of-resolve type info r ∙ d,
  worker_of-resolve type unknown r ∙ e,
)

abbrev pub is_aquire : Command → Bool
is_aquire (aquire_command b a topic) = true
is_aquire _ = false

abbrev pub aquire_fields : CommandBase → Bool → String → AquireFields
aquire_fields b a topic = record {
  channel_name = b.channel_name;
  protocol = b.protocol;
  activate = a;
  destination_topic = topic;
}

module _ (orm : Orm) (serialize : Object → String) where
  -- The command was taken: the controller goes on with these tasks.
  abbrev pub Takes : NodeController orm → List Command → Outcome (NodeController orm) → Type 0
  Takes n cs r =
      (n' : NodeController orm) × (r ≡ ok n')
      × (n'.tasks ≡ n.tasks ++ filter is_aquire cs)
      × IsRegistered n'.worker_resolver

  -- The configuration after the command.
  unfoldable pub stored : Command → Orm.Db orm → Orm.Db orm
  stored (aquire_command b a topic) db = store_aquire orm serialize (aquire_fields b a topic) db
  stored _ db = db

  unfoldable pub next : Command → NodeController orm → NodeController orm
  next c n = record {
    worker_resolver = (resolve (base c).type n.worker_resolver).1;
    node_configuration = stored c n.node_configuration;
    tasks = n.tasks;
    log =
        n.log
        ++ line (append_text "Process command => " (serialize (object_of c))) LogLevel.info ∷ [];
  }

  store_command-stored :
      (c : Command) (db : Orm.Db orm)
      → IsWellTyped c
      → store_command orm serialize (base c).type c db ≡ ok (stored c db)
  unfolding store_command as_aquire stored
  store_command-stored (aquire_command b a topic) db h = rw (h, store_command) refl
  store_command-stored (get_command b topic) db h = rw (h, store_command) refl
  store_command-stored (put_command b topic) db h = rw (h, store_command) refl
  store_command-stored (info_command b topic) db h = rw (h, store_command) refl

  pub submit_one-next :
      (c : Command) (n : NodeController orm)
      → IsWellTyped c
      → submit_one orm serialize c n
        ≡ ok (submit_to orm serialize (resolve (base c).type n.worker_resolver).0 c (next c n))
  unfolding submit_one next
  submit_one-next c n h =
      ap (λ o. o >>= λ db. to_json_string serialize c >>= λ text. ok (take db text))
        (store_command-stored c n.node_configuration h)
      ∙ ap (λ o. o >>= λ text. ok (take (stored c n.node_configuration) text))
          (to_json_string-object_of serialize c h)
    where
      take : Orm.Db orm → String → NodeController orm
      take db text = submit_to orm serialize (resolve (base c).type n.worker_resolver).0 c (record {
        worker_resolver = (resolve (base c).type n.worker_resolver).1;
        node_configuration = db;
        tasks = n.tasks;
        log = n.log ++ line (append_text "Process command => " text) LogLevel.info ∷ [];
      })

  submit_to-resolver :
      (w : Option Worker) (c : Command) (n : NodeController orm)
      → (submit_to orm serialize w c n).worker_resolver ≡ n.worker_resolver
  unfolding submit_to
  submit_to-resolver (some acquire_command_worker) c n = refl
  submit_to-resolver (some get_command_worker) c n = refl
  submit_to-resolver none c n = refl

  submit_to-tasks :
      (c : Command) (n : NodeController orm)
      → IsWellTyped c
      → IsRegistered n.worker_resolver
      → (submit_to orm serialize (resolve (base c).type n.worker_resolver).0 c (next c n)).tasks
        ≡ n.tasks ++ filter is_aquire (c ∷ [])
  unfolding submit_to next
  submit_to-tasks (aquire_command b a topic) n h i =
      rw (h, resolve-worker_of monitor n.worker_resolver, i.0, submit_to) refl
  submit_to-tasks (get_command b topic) n h i =
      rw (h, resolve-worker_of get n.worker_resolver, i.1, submit_to) (sym (append-nil n.tasks))
  submit_to-tasks (put_command b topic) n h i =
      rw (h, resolve-worker_of put n.worker_resolver, i.2, submit_to) (sym (append-nil n.tasks))
  submit_to-tasks (info_command b topic) n h i =
      rw (h, resolve-worker_of info n.worker_resolver, i.3, submit_to) (sym (append-nil n.tasks))

  submit_one-Takes :
      (c : Command) (n : NodeController orm)
      → IsWellTyped c
      → IsRegistered n.worker_resolver
      → Takes n (c ∷ []) (submit_one orm serialize c n)
  unfolding next
  submit_one-Takes c n h i = (
    submit_to orm serialize (resolve (base c).type n.worker_resolver).0 c (next c n),
    submit_one-next c n h,
    submit_to-tasks c n h i,
    subst IsRegistered (sym (submit_to-resolver _ c (next c n)))
        (resolve-IsRegistered (base c).type n.worker_resolver i),
  )

  -- Commands whose `type` names their class are all taken by a controller with the workers that
  -- the constructor registers: no cast is undefined, the tasks pushed to the pool are the
  -- acquire commands in their order, and the registration of the workers stays as it is.
  pub submit_command-Takes :
      (cs : List Command) (n : NodeController orm)
      → All IsWellTyped cs
      → IsRegistered n.worker_resolver
      → Takes n cs (submit_command orm serialize cs n)
  unfolding submit_command
  submit_command-Takes [] n h i = (n, refl, sym (append-nil n.tasks), i)
  submit_command-Takes (c ∷ cs) n (h, hs) i =
      let (m, e, t, j) = submit_one-Takes c n h i in
      let (p, f, u, k) = submit_command-Takes cs m hs j in
      (
        p,
        rw e f,
        u
            ∙ ap (λ ts. ts ++ filter is_aquire cs) t
            ∙ append_assoc n.tasks _ _
            ∙ ap (λ x. n.tasks ++ x) (sym (filter-append is_aquire (c ∷ []) cs)),
        k,
      )
