-- ===== src/Consumer/Described.antt =====
-- What the commands of a batch are, from its messages.
use ekg.Prelude.{
  ◌≡◌, ◌≢◌, refl, sym, ap, ◌∙◌, subst, String, Bool, true, false, none, some, Option, List, [], ◌∷◌,
  ◌++◌, All, nat_eq, if◌then◌else◌,
}
use ekg.Common.Outcome.{runtime_error, std_error, foreign, Outcome, ok, throws, undefined}
use ekg.Command.Json.{Value, Object}
use ekg.Command.Types.{Command, IsWellTyped}
use ekg.Command.Parser.{Parsed}
use ekg.Command.Parser.Requests.{Describes, parse-IsWellTyped}
use ekg.Consumer.{
  Element, JsonLibrary, Batch, handle_message, add_message, handle_batch, caught, try_object,
  pushed,
}
use ekg.Consumer.Batches.{handle_message-Describes}

-- Each message is a JSON object that describes its command.
abbrev pub AllDescribed : JsonLibrary → List Element → List Command → Type 0
AllDescribed json [] [] = Unit
AllDescribed json (m ∷ ms) (c ∷ cs) =
    ((obj : Object) × (m.data_len ≢ 0)
      × (json.parse_text m.content ≡ (Value.object obj, none))
      × Describes obj c)
    × AllDescribed json ms cs
AllDescribed json _ _ = ⊥

add_message_command :
    (r : Parsed) (b : Batch) (c : Command) (cs : List Command)
    → r.0 ≡ ok (some c)
    → b.0 ≡ ok cs
    → (add_message r b).0 ≡ ok (c ∷ cs)
unfolding add_message
add_message_command (ok (some x), log) (ok ys, logs) c cs h k = cc
add_message_command (ok (some x), log) (throws e, logs) c cs h k = cc
add_message_command (ok (some x), log) (undefined u, logs) c cs h k = cc
add_message_command (ok none, log) b c cs h k = cc
add_message_command (throws e, log) b c cs h k = cc
add_message_command (undefined u, log) b c cs h k = cc

pub handle_batch-AllDescribed :
    (json : JsonLibrary) (ms : List Element) (cs : List Command)
    → AllDescribed json ms cs
    → (handle_batch json ms).0 ≡ ok cs
unfolding handle_batch
handle_batch-AllDescribed json [] [] d = refl
handle_batch-AllDescribed json [] (c ∷ cs) d = absurd d
handle_batch-AllDescribed json (m ∷ ms) [] d = absurd d
handle_batch-AllDescribed json (m ∷ ms) (c ∷ cs) ((obj, filled, p, e), d) =
    add_message_command (handle_message json m) (handle_batch json ms) c cs
      (handle_message-Describes json m obj c filled p e) (handle_batch-AllDescribed json ms cs d)

module _ (json : JsonLibrary) where
  caught-some :
      (m : Element) (r : Parsed) (c : Command)
      → (caught json m r).0 ≡ ok (some c)
      → r.0 ≡ ok (some c)
  unfolding caught
  caught-some m (ok x, log) c h = h
  caught-some m (throws foreign, log) c h = cc
  caught-some m (throws (runtime_error s), log) c h = cc
  caught-some m (throws (std_error s), log) c h = cc
  caught-some m (undefined u, log) c h = cc

  try_object-IsWellTyped :
      (m : Element) (ec : Option String) (o : Outcome Object) (c : Command)
      → (try_object json m ec o).0 ≡ ok (some c)
      → IsWellTyped c
  unfolding try_object
  try_object-IsWellTyped m ec (throws e) c h = cc
  try_object-IsWellTyped m ec (undefined u) c h = cc
  try_object-IsWellTyped m (some text) (ok obj) c h = cc
  try_object-IsWellTyped m none (ok obj) c h = parse-IsWellTyped json.serialize obj c h

  chosen :
      (b : Bool) (p : Parsed) (c : Command)
      → (if b then (ok none, []) else p).0 ≡ ok (some c)
      → p.0 ≡ ok (some c)
  chosen true p c h = cc
  chosen false p c h = h

  handle_message-IsWellTyped :
      (m : Element) (c : Command) → (handle_message json m).0 ≡ ok (some c) → IsWellTyped c
  unfolding handle_message
  handle_message-IsWellTyped m c h =
      try_object-IsWellTyped m _ _ c (caught-some m _ c (chosen (nat_eq m.data_len 0) _ c h))

  add_message_inv :
      (r : Parsed) (b : Batch) (cs : List Command)
      → (add_message r b).0 ≡ ok cs
      → (x : Option Command) × (ds : List Command) × (r.0 ≡ ok x)
        × (b.0 ≡ ok ds)
        × (cs ≡ pushed x ++ ds)
  unfolding add_message
  add_message_inv (ok x, log) (ok ds, logs) cs h = (x, ds, refl, refl, cc)
  add_message_inv (ok x, log) (throws e, logs) cs h = cc
  add_message_inv (ok x, log) (undefined u, logs) cs h = cc
  add_message_inv (throws e, log) b cs h = cc
  add_message_inv (undefined u, log) b cs h = cc

  typed_more :
      (x : Option Command) (ds : List Command)
      → ((c : Command) → x ≡ some c → IsWellTyped c)
      → All IsWellTyped ds
      → All IsWellTyped (pushed x ++ ds)
  typed_more none ds f t = t
  typed_more (some c) ds f t = (f c refl, t)

  -- Whatever the messages are, the commands that a batch gives are well typed.
  pub handle_batch-IsWellTyped :
      (ms : List Element) (cs : List Command)
      → (handle_batch json ms).0 ≡ ok cs
      → All IsWellTyped cs
  unfolding handle_batch
  handle_batch-IsWellTyped [] [] h = tt
  handle_batch-IsWellTyped [] (c ∷ cs) h = cc
  handle_batch-IsWellTyped (m ∷ ms) cs h =
      let (x, ds, r, b, e) = add_message_inv (handle_message json m) (handle_batch json ms) cs h in
      subst (All IsWellTyped) (sym e) (
        typed_more x ds (λ c k. handle_message-IsWellTyped m c (r ∙ ap ok k))
          (handle_batch-IsWellTyped ms ds b))
