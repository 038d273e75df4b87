-- ===== src/Data/Repository/Queries.antt =====
-- What the queries return.
use ekg.Prelude.{
  ℕ, ◌+◌, ◌%◌, ◌^◌, ◌≡◌, refl, sym, ap, ◌||◌, ◌∙◌, String, Bool, true, false, none, some, List, [],
  ◌∷◌, filter, any, String_key, ◌==◌, Bool-cases, inl, inr, ◌⊎◌, ◌++◌, append-nil, append_assoc,
}
use ekg.Data.Orm.{Row, matches, Orm}
use ekg.Data.Repository.{
  to_channel_monitor, insert, for_each_row, first_row, is_present, get_channel_monitor,
  process_all_channel_monitor,
}
use ekg.Command.Types.{AquireFields}
use ekg.Data.Repository.Contents.{is_present-holds, is_present-insert, matches_refl, matches_iff}

-- The rows of a test with their positions, as the handler sees them.
abbrev pub numbered : ℕ → List Row → List (ℕ × Row)
numbered n [] = []
numbered n (r ∷ rs) = (n, r) ∷ numbered ((n + 1) % 2 ^ 32) rs

first_row-filter :
    (p : Row → Bool) (rs : List Row)
    → ((first_row (filter p rs) ≡ none) × (any p rs ≡ false))
      ⊎ ((r : Row) × (first_row (filter p rs) ≡ some r) × (any p rs ≡ true) × (p r ≡ true))
first_row-filter p [] = inl (refl, refl)
first_row-filter p (r ∷ rs) = elim (Bool-cases (p r)) [
  | inl e ↦ inr (r, rw e, rw e, e)
  | inr e ↦ rw e (first_row-filter p rs)
]

module _ (orm : Orm) where
  open orm use {Db, rows}

  -- `getChannelMonitor` finds nothing exactly when `isPresent` says no, and what it finds has the
  -- name, the protocol and the destination that were asked for.
  pub get_channel_monitor-is_present :
      (d : Row) (db : Db)
      → ((get_channel_monitor orm d db ≡ none) × (is_present orm d db ≡ false))
        ⊎ ((r : Row) × (get_channel_monitor orm d db ≡ some r)
            × (is_present orm d db ≡ true)
            × (matches d r ≡ true))
  unfolding get_channel_monitor
  get_channel_monitor-is_present d db =
      rw (orm.get_all-rows (matches d) db, is_present-holds orm d db)
        (first_row-filter (matches d) (rows db))

  -- The fields of an acquire command survive their way into the table and back: a description that
  -- was inserted, as a new row or because it was there, is found with the command's channel,
  -- protocol and topic.
  pub get_channel_monitor-insert :
      (c : AquireFields) (db : Db)
      → (r : Row) × (get_channel_monitor orm
            (to_channel_monitor c)
            (insert orm (to_channel_monitor c) db)
          ≡ some r)
        × (r.channel_name ≡ c.channel_name)
        × (r.channel_protocol ≡ c.protocol)
        × (r.channel_destination ≡ c.destination_topic)
  unfolding to_channel_monitor
  get_channel_monitor-insert c db =
      let d = to_channel_monitor c in
      elim (get_channel_monitor-is_present d (insert orm d db)) [
        | inl (_, missing) ↦
            let yes =
              is_present-insert orm d d db ∙ ap (λ b. b || is_present orm d db) (matches_refl d) in
            cc
        | inr (r, e, _, m) ↦ let (a, b, t) = (matches_iff d r).0 m in (r, e, a, b, t)
      ]

  for_each_row-numbered :
      (n : ℕ) (rs : List Row) (seen : List (ℕ × Row))
      → for_each_row (λ i r w. w ++ (i, r) ∷ []) n rs seen ≡ seen ++ numbered n rs
  unfolding for_each_row
  for_each_row-numbered n [] seen = sym (append-nil seen)
  for_each_row-numbered n (r ∷ rs) seen =
      for_each_row-numbered ((n + 1) % 2 ^ 32) rs (seen ++ (n, r) ∷ []) ∙ append_assoc seen _ _

  -- The handler of `processAllChannelMonitor` is given, with the indices 0, 1 and so on, every row
  -- of the channel name in the order of the table: those of all protocols, whichever protocol was
  -- passed.
  pub process_all_channel_monitor-numbered :
      (name protocol : String) (db : Db)
      → process_all_channel_monitor orm name protocol (λ i r w. w ++ (i, r) ∷ []) db []
        ≡ numbered 0 (filter (λ r. r.channel_name == name) (rows db))
  unfolding process_all_channel_monitor
  process_all_channel_monitor-numbered name protocol db =
      rw (orm.get_all-rows (λ r. r.channel_name == name) db) (for_each_row-numbered 0 _ [])
