-- ===== src/Gateway/System/Asked.antt =====
-- No update reaches a topic that nobody asked for.
use mathlib.Core.List.{Permᴰ}
use mathlib.Core.Path.{ap₂}
use ekg.Prelude.{
  any-append, any-filter, String, Bool, true, false, Option, ◌≡◌, refl, ap, ◌∙◌, List, [], ◌∷◌,
  ◌++◌, All, All-append, any, filter, arith, ◌||◌, ◌&&◌, String_key, ◌==◌, ◌⊎◌, inl, inr,
}
use ekg.Command.Types.{
  AquireFields, Command, aquire_command, get_command, put_command, info_command,
}
use ekg.Consumer.{JsonLibrary, Subscriber}
use ekg.Data.Orm.{Orm}
use ekg.Epics.Channel.{Pvac}
use ekg.Gateway.Pipeline.{acquires}
use ekg.Gateway.System.{Program, Label, took, began, ended, locked, unlocked, polled, Run}
use ekg.Gateway.System.Conserved.{Run-Permᴰ}
use ekg.Gateway.System.Invariant.{IsSound}
use ekg.Gateway.System.Sends.{Routes, taken, begun, sends, routes, Run-sends}
use ekg.Node.Controller.Dispatch.{is_aquire, aquire_fields}
use ekg.Node.Worker.{MonitorMessage, has}
use ekg.Node.Worker.Events.{All-all_messages}
use ekg.Node.Worker.Overlap.Routes.{route, route_all}
use ekg.Node.Worker.Topics.{has-update_topics_le}
use ekg.Pubsub.Publisher.{Producer}
use ekg.Pubsub.Publisher.Queueing.{produce_all}

-- The command activates this topic of this channel.
abbrev pub activates : String → String → Command → Bool
activates channel topic (aquire_command b a t) = a && (b.channel_name == channel && t == topic)
activates channel topic _ = false

-- One of the commands asks for this message.
abbrev pub IsAsked : List Command → MonitorMessage → Type 0
IsAsked cs m = any (activates m.distribution_key m.queue) cs ≡ true

any-Permᴰ : {A : Type 0} (p : A → Bool) {xs ys : List A} → Permᴰ xs ys → any p xs ≡ any p ys
any-Permᴰ p Permᴰ.nil = refl
any-Permᴰ p (Permᴰ.cons e d) = ap₂ (◌||◌) (ap p e) (any-Permᴰ p d)
any-Permᴰ p (Permᴰ.swap {a} {b} {a'} {b'} e f) = ground (arith, ap p e, ap p f)
any-Permᴰ p (Permᴰ.trans d e) = any-Permᴰ p d ∙ any-Permᴰ p e

-- A topic that is there behind a command was there before, or the command activates it.
has-routed :
    (channel topic : String) (c : AquireFields) (f : Routes)
    → has topic (route c f channel) ≡ true
    → ((c.activate && (c.channel_name == channel && c.destination_topic == topic)) ≡ true)
      ⊎ (has topic (f channel) ≡ true)
has-routed channel topic c f h =
    ground (arith, has-update_topics_le c.activate topic c.destination_topic (f channel))

-- The topics that some commands may have left.
abbrev Within : List Command → Routes → Type 0
Within cs f =
    (channel topic : String)
    → has topic (f channel) ≡ true
    → any (activates channel topic) cs ≡ true

-- What the command activates, some of these do.
abbrev IsCovered : List Command → Command → Type 0
IsCovered cs c =
    (channel topic : String)
    → activates channel topic c ≡ true
    → any (activates channel topic) cs ≡ true

All-IsCovered :
    (xs cs : List Command)
    → ((channel topic : String)
        → any (activates channel topic) xs ≡ true
        → any (activates channel topic) cs ≡ true)
    → All (IsCovered cs) xs
All-IsCovered [] cs h = tt
All-IsCovered (x ∷ xs) cs h = (
  λ channel topic a. h channel topic (ground arith),
  All-IsCovered xs cs (λ channel topic m. h channel topic (ground arith)),
)

Within-routed :
    (cs : List Command) (c : Command) (f : Routes)
    → IsCovered cs c
    → Within cs f
    → Within cs (route_all (acquires (c ∷ [])) f)
Within-routed cs (aquire_command b a t) f covered h channel topic m =
    elim (has-routed channel topic (aquire_fields b a t) f m) [
      | inl new ↦ covered channel topic new
      | inr old ↦ h channel topic old
    ]
Within-routed cs (get_command b t) f covered h channel topic m = h channel topic m
Within-routed cs (put_command b value) f covered h channel topic m = h channel topic m
Within-routed cs (info_command b t) f covered h channel topic m = h channel topic m

module _ (pvac : Pvac) (value_of : Option (Pvac.Structure pvac) → String) where
  sends-IsAsked :
      (cs : List Command) (ls : List (Label pvac)) (f : Routes)
      → Within cs f
      → All (IsCovered cs) (begun ls)
      → All (IsAsked cs) (sends pvac value_of f ls)
  sends-IsAsked cs [] f h k = tt
  sends-IsAsked cs (took ds ∷ ls) f h k = sends-IsAsked cs ls f h k
  sends-IsAsked cs (began c ∷ ls) f h (k, ks) = sends-IsAsked cs ls _ (Within-routed cs c f k h) ks
  sends-IsAsked cs (ended name ∷ ls) f h k = sends-IsAsked cs ls f h k
  sends-IsAsked cs (locked ∷ ls) f h k = sends-IsAsked cs ls f h k
  sends-IsAsked cs (unlocked ∷ ls) f h k = sends-IsAsked cs ls f h k
  sends-IsAsked cs (polled es ∷ ls) f h k =
      All-append (IsAsked cs) _ _
        (All-all_messages pvac value_of (λ channel topic. any (activates channel topic) cs ≡ true) f
          h es)
        (sends-IsAsked cs ls f h k)

module _ (orm : Orm) (pvac : Pvac) (value_of : Option (Pvac.Structure pvac) → String)
    (json : JsonLibrary) {B Q : Type 0} (subscriber : Subscriber B) (producer : Producer Q) where
  begun-taken :
      {s t : Program orm pvac B Q} {ls : List (Label pvac)}
      → Run orm pvac value_of json subscriber producer s ls t
      → IsSound orm pvac value_of json subscriber producer s
      → s.node.tasks ≡ []
      → (p : Command → Bool) → any p (begun ls) ≡ true
      → any p (taken ls) ≡ true
  begun-taken {s} {t} {ls} r i idle p h =
      let same = any-Permᴰ p (Run-Permᴰ orm pvac value_of json subscriber producer r i) in
      any-filter p is_aquire (taken ls) (
        ground (
          arith,
          same,
          any-append p (begun ls) t.node.tasks,
          ap (λ ts. any p (ts ++ filter is_aquire (taken ls))) idle,
        ))

  -- No update reaches a topic that nobody asked for: from a program in which no channel has a
  -- topic and no task waits, however the steps of the threads follow one another, each message
  -- that is handed to the producer goes to a topic that one of the commands taken so far
  -- activates for the channel of the message.
  pub Run-IsAsked :
      {s t : Program orm pvac B Q} {ls : List (Label pvac)}
      → Run orm pvac value_of json subscriber producer s ls t
      → IsSound orm pvac value_of json subscriber producer s
      → s.node.tasks ≡ []
      → ((channel : String) → routes orm pvac value_of json subscriber producer s channel ≡ [])
      → let ms = sends pvac value_of (routes orm pvac value_of json subscriber producer s) ls in
        (t.queue ≡ produce_all producer ms s.queue) × All (IsAsked (taken ls)) ms
  Run-IsAsked {s} {ls} r i idle none_yet =
      let f = routes orm pvac value_of json subscriber producer s in
      (
        (Run-sends orm pvac value_of json subscriber producer r i.handled).0,
        sends-IsAsked pvac value_of (taken ls) ls f
            (λ channel topic h. cc (ap (has topic) (none_yet channel)))
            (All-IsCovered (begun ls) (taken ls)
              (λ channel topic. begun-taken r i idle (activates channel topic))),
      )
