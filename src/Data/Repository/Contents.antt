-- ===== src/Data/Repository/Contents.antt =====
-- The repository is a set of (name, protocol, destination) triples, each in one row.
use mathlib.Core.Path.{fun_ext}
use ekg.Prelude.{
  ◌≡◌, ◌↔◌, refl, sym, ap, ◌∙◌, Bool, true, false, not, List, [], ◌∷◌, ◌++◌, length, filter, any,
  nat_eq, String_key, ◌&&◌, ◌||◌, if◌then◌else◌, arith, eq_iff, Bool-cases, inl, inr,
  any-append_one, any-filter_same, any-filter_apart, any-filter_none,
}
use ekg.Data.Orm.{ChannelMonitorType, Row, matches, Orm}
use ekg.Data.Repository.{insert, remove, is_present, remove_all}

abbrev pub holds : Row → List Row → Bool
holds d rs = any (matches d) rs

-- No two rows have the same triple.
abbrev pub IsUnique : List Row → Type 0
IsUnique [] = Unit
IsUnique (r ∷ rs) = (holds r rs ≡ false) × IsUnique rs

count_holds :
    (d : Row) (rs : List Row) → not (nat_eq (length (filter (matches d) rs)) 0) ≡ holds d rs
count_holds d [] = refl
count_holds d (r ∷ rs) = elim (Bool-cases (matches d r)) [
  | inl e ↦ rw e (ground arith)
  | inr e ↦ rw e (count_holds d rs)
]

pub matches_iff :
    (d r : Row)
    → (matches d r ≡ true) ↔ (
        (r.channel_name ≡ d.channel_name)
        × (r.channel_protocol ≡ d.channel_protocol)
        × (r.channel_destination ≡ d.channel_destination))
matches_iff d r = ground (
  arith,
  eq_iff r.channel_name d.channel_name,
  eq_iff r.channel_protocol d.channel_protocol,
  eq_iff r.channel_destination d.channel_destination,
)

-- Two rows that match are the same to every test.
matches_same : (d t : Row) → matches d t ≡ true → (r : Row) → matches t r ≡ matches d r
matches_same d t h r = let (a, b, c) = (matches_iff d t).0 h in rw (a, b, c) refl

matches_apart :
    (d t : Row) → matches d t ≡ false → (r : Row) → matches t r ≡ true → matches d r ≡ false
matches_apart d t h r k = let (a, b, c) = (matches_iff t r).0 k in rw (a, b, c) h

matches_sym : (d t : Row) → matches d t ≡ matches t d
matches_sym d t = ground (arith, matches_iff d t, matches_iff t d)

held_already :
    (t d : Row) (rs : List Row) → holds d rs ≡ true → holds t rs ≡ (matches d t || holds t rs)
held_already t d rs e = elim (Bool-cases (matches d t)) [
  | inl m ↦ rw m (ap (λ p. any p rs) (fun_ext (matches_same d t m)) ∙ e)
  | inr m ↦ rw m
]

holds-removed :
    (t d : Row) (rs : List Row)
    → holds t (filter (λ r. not (matches d r)) rs) ≡ (not (matches d t) && holds t rs)
holds-removed t d rs = elim (Bool-cases (matches d t)) [
  | inl m ↦ rw m (any-filter_same (matches t) (matches d) (matches_same d t m) rs)
  | inr m ↦ rw m (any-filter_apart (matches t) (matches d) (matches_apart d t m) rs)
]

IsUnique-append :
    (r : Row) (rs : List Row) → holds r rs ≡ false → IsUnique rs → IsUnique (rs ++ r ∷ [])
IsUnique-append r [] h u = (refl, tt)
IsUnique-append r (s ∷ rs) h (fresh, u) = (
  any-append_one (matches s) rs r ∙ ground (arith, matches_sym s r),
  IsUnique-append r rs (ground arith) u,
)

IsUnique-filter : (p : Row → Bool) (rs : List Row) → IsUnique rs → IsUnique (filter p rs)
IsUnique-filter p [] u = tt
IsUnique-filter p (r ∷ rs) (fresh, u) =
    ground (arith, IsUnique-filter p rs u, any-filter_none (matches r) p rs fresh)

-- What an operation is to the set of triples.
pub data Operation : Type 0 where
  inserts removes : ChannelMonitorType → Operation
  removes_all : Operation

unfoldable pub wish : Row → Operation → Bool → Bool
wish t (inserts d) before = matches d t || before
wish t (removes d) before = not (matches d t) && before
wish t removes_all before = false

module _ (orm : Orm) where
  open orm use {Db, rows}

  unfoldable pub apply : Operation → Db → Db
  apply (inserts d) db = insert orm d db
  apply (removes d) db = remove orm d db
  apply removes_all db = remove_all orm db

  -- `isPresent` reads the rows.
  pub is_present-holds : (d : Row) (db : Db) → is_present orm d db ≡ holds d (rows db)
  unfolding is_present
  is_present-holds d db = rw (orm.count-rows (matches d) db) (count_holds d (rows db))

  insert-rows :
      (d : Row) (db : Db)
      → rows (insert orm d db)
        ≡ (if holds d (rows db) then rows db else rows db ++ record d { id = orm.next_id db } ∷ [])
  unfolding insert
  insert-rows d db =
      ground (arith, orm.count-rows (matches d) db, orm.rows-insert d db, count_holds d (rows db))

  holds-insert :
      (t d : Row) (db : Db) → holds t (rows (insert orm d db)) ≡ (matches d t || holds t (rows db))
  holds-insert t d db = elim (Bool-cases (holds d (rows db))) [
    | inl e ↦ rw (insert-rows d db, e) (held_already t d (rows db) e)
    | inr e ↦
        rw (insert-rows d db, e)
          (any-append_one (matches t) (rows db) _
            ∙ ap (λ b. b || holds t (rows db)) (matches_sym t d))
  ]

  -- Every operation does to the set of triples what its name says.
  apply-wish :
      (t : Row) (o : Operation) (db : Db)
      → holds t (rows (apply o db)) ≡ wish t o (holds t (rows db))
  unfolding apply wish remove remove_all
  apply-wish t (inserts d) db = holds-insert t d db
  apply-wish t (removes d) db =
      rw (orm.rows-remove_all (matches d) db) (holds-removed t d (rows db))
  apply-wish t removes_all db = rw (orm.rows-remove_all (λ r. true) db) (nothing (rows db))
    where
      nothing : (rs : List Row) → holds t (filter (λ r. not true) rs) ≡ false
      nothing [] = refl
      nothing (r ∷ rs) = nothing rs

  apply-IsUnique : (o : Operation) (db : Db) → IsUnique (rows db) → IsUnique (rows (apply o db))
  unfolding apply remove remove_all
  apply-IsUnique (inserts d) db u = elim (Bool-cases (holds d (rows db))) [
    | inl e ↦ rw (insert-rows d db, e) u
    | inr e ↦ rw (insert-rows d db, e) (IsUnique-append _ (rows db) e u)
  ]
  apply-IsUnique (removes d) db u =
      rw (orm.rows-remove_all (matches d) db) (IsUnique-filter _ (rows db) u)
  apply-IsUnique removes_all db u =
      rw (orm.rows-remove_all (λ r. true) db) (IsUnique-filter (λ r. not true) (rows db) u)

  abbrev pub apply_all : List Operation → Db → Db
  apply_all [] db = db
  apply_all (o ∷ os) db = apply_all os (apply o db)

  abbrev pub wish_all : Row → List Operation → Bool → Bool
  wish_all t [] before = before
  wish_all t (o ∷ os) before = wish_all t os (wish t o before)

  -- After any sequence of insert, remove and removeAll, `isPresent` answers for a triple as a set
  -- of triples does under the same sequence; and if no triple had two rows before, none has.
  pub apply_all-wish_all :
      (os : List Operation) (db : Db) (t : Row)
      → IsUnique (rows db)
      → (is_present orm t (apply_all os db) ≡ wish_all t os (is_present orm t db))
        × IsUnique (rows (apply_all os db))
  apply_all-wish_all os db t u = (
    is_present-holds t (apply_all os db)
        ∙ run os db
        ∙ ap (wish_all t os) (sym (is_present-holds t db)),
    unique os db u,
  )
    where
      run :
          (ps : List Operation) (d : Db)
          → holds t (rows (apply_all ps d)) ≡ wish_all t ps (holds t (rows d))
      run [] d = refl
      run (p ∷ ps) d = run ps (apply p d) ∙ ap (wish_all t ps) (apply-wish t p d)

      unique : (ps : List Operation) (d : Db) → IsUnique (rows d) → IsUnique (rows (apply_all ps d))
      unique [] d v = v
      unique (p ∷ ps) d v = unique ps (apply p d) (apply-IsUnique p d v)

  -- `insert` adds its triple and no other.
  pub is_present-insert :
      (t d : Row) (db : Db)
      → is_present orm t (insert orm d db) ≡ (matches d t || is_present orm t db)
  is_present-insert t d db =
      is_present-holds t (insert orm d db)
      ∙ holds-insert t d db
      ∙ ap (λ b. matches d t || b) (sym (is_present-holds t db))

pub matches_refl : (d : Row) → matches d d ≡ true
matches_refl d = (matches_iff d d).1 (refl, refl, refl)
