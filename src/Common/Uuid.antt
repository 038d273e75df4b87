-- ===== src/Common/Uuid.antt =====
-- common/uuid.h. The text of the random identifier is a parameter; size_t positions are in bytes.
use Prim.Native.String.{◌++◌, len, slice, find}
use ekg.Prelude.{
  ◌+◌, ◌≡◌, refl, sym, ap, ◌∙◌, String, true, false, ltb, if◌then◌else◌, ◌⊎◌, inl, inr, arith,
}
use text.Mathlib.TextFind.{find_cases}
use text.Mathlib.TextPositions.{slice-append_left, len-append}

unfoldable pub generate_uuid : String → String
generate_uuid str_uuid = str_uuid

-- `find` of the library answers a position behind the text where std::string answers npos.
unfoldable pub generate_uuid_lite : String → String
generate_uuid_lite str_uuid =
    let found_first_segment = find str_uuid "-" in
    if ltb (len str_uuid) found_first_segment
    then str_uuid
    else slice str_uuid 0 found_first_segment

-- The short identifier is the long one up to a dash, or the whole of it.
pub generate_uuid_lite-prefix :
    (s : String)
    → ((v : String) × (s ≡ generate_uuid_lite s ++ ("-" ++ v))) ⊎ (generate_uuid_lite s ≡ s)
unfolding generate_uuid_lite
generate_uuid_lite-prefix s = elim (find_cases s "-") [
  | inl (u, v, e, at) ↦
      let short : len u ≡ find s "-" = sym at in
      let whole : len s ≡ len u + len ("-" ++ v) = ap len e ∙ len-append u ("-" ++ v) in
      let inside : ltb (len s) (find s "-") ≡ false = ground (arith, short, whole) in
      inl (
        v,
        e
            ∙ ap (λ t. t ++ ("-" ++ v))
                (sym (
                  rw (inside, at)
                    (ap (λ t. slice t 0 (len u)) e ∙ slice-append_left u ("-" ++ v)))),
      )
  | inr miss ↦
      let beyond : ltb (len s) (find s "-") ≡ true = ground (arith, miss) in inr (rw beyond refl)
]
