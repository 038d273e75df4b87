-- ===== src/Node/Worker/Topics.antt =====
-- The topics of each channel after any sequence of acquire commands.
use mathlib.Core.Option.{get_or}
use ekg.Prelude.{
  ◌≡◌, refl, ap, ◌∙◌, String, Bool, true, false, List, [], ◌∷◌, ◌++◌, String_key, ◌==◌,
  if◌then◌else◌, arith, eq_iff, inl, inr, Bool-cases, ◌||◌, ◌&&◌, ◌⊎◌,
}
use ekg.Prelude.StdMap.{find, at, find-assign, find-at, at-eq-get_or}
use ekg.Command.Types.{Command, aquire_command, AquireFields, monitor}
use ekg.Epics.Channel.{Pvac}
use ekg.Node.Worker.{
  ChannelTopicsMap, WorkerState, has, erase_first, update_topics, acquire_management,
}

abbrev pub topics_of : String → ChannelTopicsMap → List String
topics_of channel m = get_or (find channel m) []

-- The command that `parse` makes of an acquire request.
abbrev pub command_of : AquireFields → Command
command_of c =
    aquire_command (record { type = monitor; protocol = c.protocol; channel_name = c.channel_name })
      c.activate c.destination_topic

-- No topic stands twice.
abbrev pub Distinct : List String → Type 0
Distinct [] = Unit
Distinct (t ∷ ts) = (has t ts ≡ false) × Distinct ts

has-append : (s t : String) (ts : List String) → has s (ts ++ t ∷ []) ≡ (t == s || has s ts)
has-append s t [] = ground arith
has-append s t (u ∷ ts) = ground (arith, has-append s t ts)

has-erase_first :
    (s t : String) (ts : List String)
    → Distinct ts
    → has s (erase_first t ts) ≡ (if t == s then false else has s ts)
unfolding erase_first
has-erase_first s t [] d = ground arith
has-erase_first s t (u ∷ ts) (fresh, d) =
    ground (arith, has-erase_first s t ts d, eq_iff u t, eq_iff u s, eq_iff t s)

-- An update sets the one topic and leaves every other.
has-update_topics :
    (a : Bool) (s t : String) (ts : List String)
    → Distinct ts
    → has s (update_topics a t ts) ≡ (if t == s then a else has s ts)
unfolding update_topics
has-update_topics true s t ts d = ground (arith, has-append s t ts, eq_iff t s)
has-update_topics false s t ts d = ground (arith, has-erase_first s t ts d, eq_iff t s)

has-erase_first_le :
    (s t : String) (ts : List String) → has s (erase_first t ts) ≡ true → has s ts ≡ true
unfolding erase_first
has-erase_first_le s t [] h = h
has-erase_first_le s t (u ∷ ts) h = ground (arith, has-erase_first_le s t ts)

-- A topic that is there behind an update was there before, or the update adds it.
pub has-update_topics_le :
    (a : Bool) (s t : String) (ts : List String)
    → has s (update_topics a t ts) ≡ true
    → ((a && t == s) ≡ true) ⊎ (has s ts ≡ true)
unfolding update_topics
has-update_topics_le true s t ts h = ground (arith, has-append s t ts)
has-update_topics_le false s t ts h = ground (arith, has-erase_first_le s t ts)

Distinct-append :
    (t : String) (ts : List String) → has t ts ≡ false → Distinct ts → Distinct (ts ++ t ∷ [])
Distinct-append t [] h d = (refl, tt)
Distinct-append t (u ∷ ts) h (fresh, d) = (
  ground (arith, has-append u t ts, eq_iff u t, eq_iff t u),
  Distinct-append t ts (ground arith) d,
)

Distinct-erase_first : (t : String) (ts : List String) → Distinct ts → Distinct (erase_first t ts)
unfolding erase_first
Distinct-erase_first t [] d = tt
Distinct-erase_first t (u ∷ ts) (fresh, d) =
    ground (arith, Distinct-erase_first t ts d, has-erase_first u t ts d, eq_iff u t, eq_iff t u)

pub Distinct-update_topics :
    (a : Bool) (t : String) (ts : List String) → Distinct ts → Distinct (update_topics a t ts)
unfolding update_topics
Distinct-update_topics true t ts d = ground (arith, Distinct-append t ts)
Distinct-update_topics false t ts d = ground (arith, Distinct-erase_first t ts d)

-- The last command about a topic of a channel, if there is one, and else what held before.
abbrev pub last_wish : String → String → List AquireFields → Bool → Bool
last_wish channel topic [] before = before
last_wish channel topic (c ∷ cs) before =
    last_wish channel topic cs
      (if c.channel_name == channel && c.destination_topic == topic then c.activate else before)

module _ (pvac : Pvac) {H : Type 0} where
  pub topics_of-acquire :
      (c : AquireFields) (w : WorkerState pvac H) (j : String)
      → topics_of j (acquire_management pvac (command_of c) w).1.channel_topics_map ≡ (
          if c.channel_name == j
          then update_topics c.activate c.destination_topic (topics_of j w.channel_topics_map)
          else topics_of j w.channel_topics_map)
  unfolding acquire_management
  topics_of-acquire c w j = ground (
    arith,
    find-assign c.channel_name j
        (update_topics c.activate c.destination_topic (at c.channel_name [] w.channel_topics_map).0)
        (at c.channel_name [] w.channel_topics_map).1,
    find-at c.channel_name j [] w.channel_topics_map,
    at-eq-get_or c.channel_name [] w.channel_topics_map,
    eq_iff c.channel_name j,
  )

  abbrev pub AllDistinct : WorkerState pvac H → Type 0
  AllDistinct w = (j : String) → Distinct (topics_of j w.channel_topics_map)

  acquire-AllDistinct :
      (c : AquireFields) (w : WorkerState pvac H)
      → AllDistinct w
      → AllDistinct (acquire_management pvac (command_of c) w).1
  acquire-AllDistinct c w d j = elim (Bool-cases (c.channel_name == j)) [
    | inl e ↦
        rw (topics_of-acquire c w j, e)
          (Distinct-update_topics c.activate c.destination_topic _ (d j))
    | inr e ↦ rw (topics_of-acquire c w j, e) (d j)
  ]

  -- What the tasks leave one after the other, as a reference for the topics alone: these do not
  -- depend on how the calls of `monitorChannel` end.
  abbrev pub run_all : List AquireFields → WorkerState pvac H → WorkerState pvac H
  run_all [] w = w
  run_all (c ∷ cs) w = run_all cs (acquire_management pvac (command_of c) w).1

  -- After any sequence of acquire commands, from topics without repetition, a channel is sent to a
  -- topic exactly when the last command about the two activated it, or none did and it was so
  -- before; and no topic stands twice.
  pub run_all-last_wish :
      (cs : List AquireFields) (w : WorkerState pvac H) (channel topic : String)
      → AllDistinct w
      → (has topic (topics_of channel (run_all cs w).channel_topics_map)
          ≡ last_wish channel topic cs (has topic (topics_of channel w.channel_topics_map)))
        × Distinct (topics_of channel (run_all cs w).channel_topics_map)
  run_all-last_wish [] w channel topic d = (refl, d channel)
  run_all-last_wish (c ∷ cs) w channel topic d =
      let w' : WorkerState pvac H = (acquire_management pvac (command_of c) w).1 in
      let (now, distinct) = run_all-last_wish cs w' channel topic (acquire-AllDistinct c w d) in
      (now ∙ ap (last_wish channel topic cs) one, distinct)
    where
      one :
          has topic
            (topics_of channel (acquire_management pvac (command_of c) w).1.channel_topics_map)
          ≡ (if c.channel_name == channel && c.destination_topic == topic
              then c.activate
              else has topic (topics_of channel w.channel_topics_map))
      one = rw (topics_of-acquire c w channel) (
          ground (
            arith,
            has-update_topics c.activate topic c.destination_topic
                (topics_of channel w.channel_topics_map) (d channel),
          ))
