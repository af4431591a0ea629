-- ===== src/Postgres/Versions.antt =====
-- The version numbers of the streams: in every stream they run from 1 without a gap, also when the
-- INSERT statements of several connections overlap.
use nocturne_atlas_event_str.Prelude.{
  ◌++◌, ℕ, zero, suc, ◌≤◌, String, ◌≡◌, refl, Option, none, some, List, [], ◌∷◌, ◌==◌, eq_iff,
  arith, ltb, if◌then◌else◌, Option-cases, inl, inr,
}
use nocturne_atlas_event_str.Prelude.Int.{ℤ, pos, int_succ}
use nocturne_atlas_event_str.Domain.{Event}
use nocturne_atlas_event_str.Postgres.Table.{
  max_version, coalesce_zero, next_version, row_by_id, has_version, add_row, insert_event,
}

-- The number of events of a stream.
abbrev pub count_stream : String → List Event → ℕ
count_stream stream [] = 0
count_stream stream (r ∷ rows) =
    if r.stream_id == stream then suc (count_stream stream rows) else count_stream stream rows

-- From the oldest row on, each row has the next version of its stream, and a UUID of its own.
abbrev pub IsNumbered : List Event → Type 0
IsNumbered [] = Unit
IsNumbered (r ∷ rows) =
    (r.version ≡ pos (suc (count_stream r.stream_id rows)))
    × (row_by_id r.id rows ≡ none)
    × IsNumbered rows

abbrev max_or_null : ℕ → Option ℤ
max_or_null zero = none
max_or_null (suc n) = some (pos (suc n))

max_version-IsNumbered :
    (stream : String) (rows : List Event)
    → IsNumbered rows
    → max_version stream rows ≡ max_or_null (count_stream stream rows)
unfolding max_version
max_version-IsNumbered stream [] h = refl
max_version-IsNumbered stream (r ∷ rows) (v, u, h) =
    ground (arith, max_version-IsNumbered stream rows h, eq_iff r.stream_id stream)

pub next_version-IsNumbered :
    (stream : String) (rows : List Event)
    → IsNumbered rows
    → next_version stream rows ≡ pos (suc (count_stream stream rows))
unfolding next_version
next_version-IsNumbered stream rows h =
    let e = max_version-IsNumbered stream rows h in rw e (go (count_stream stream rows))
  where
    go : (n : ℕ) → int_succ (coalesce_zero (max_or_null n)) ≡ pos (suc n)
    go zero = refl
    go (suc n) = ground arith

-- A version is taken exactly if it is at most the number of events of the stream.
has_version-IsNumbered :
    (stream : String) (n : ℕ) (rows : List Event)
    → IsNumbered rows
    → has_version stream (pos (suc n)) rows ≡ ltb n (count_stream stream rows)
unfolding has_version
has_version-IsNumbered stream n [] h = ground arith
has_version-IsNumbered stream n (r ∷ rows) (v, u, h) =
    ground (arith, has_version-IsNumbered stream n rows h, eq_iff r.stream_id stream)

IsNumbered-append : (newer rows : List Event) → IsNumbered (newer ++ rows) → IsNumbered rows
IsNumbered-append [] rows h = h
IsNumbered-append (r ∷ newer) rows (v, u, h) = IsNumbered-append newer rows h

count_stream-le :
    (stream : String) (newer rows : List Event)
    → count_stream stream rows ≤ count_stream stream (newer ++ rows)
count_stream-le stream [] rows = omega arith
count_stream-le stream (r ∷ newer) rows = ground (arith, count_stream-le stream newer rows)

add_row-IsNumbered :
    (n : ℕ) (e : Event) (rows : List Event)
    → IsNumbered rows
    → row_by_id e.id rows ≡ none
    → n ≤ count_stream e.stream_id rows
    → IsNumbered (add_row (pos (suc n)) e rows).1
unfolding add_row
add_row-IsNumbered n e rows h new le = ground (arith, has_version-IsNumbered e.stream_id n rows h)

-- An INSERT keeps the numbering, whatever was committed since its snapshot was taken.
pub insert_event-IsNumbered :
    (newer snapshot : List Event) (e : Event)
    → IsNumbered (newer ++ snapshot)
    → IsNumbered (insert_event snapshot e (newer ++ snapshot)).1
unfolding insert_event
insert_event-IsNumbered newer snapshot e h =
    elim (Option-cases (row_by_id e.id (newer ++ snapshot))) [
      | inl new ↦
          rw
            (
              new,
              insert_event,
              next_version-IsNumbered e.stream_id snapshot (IsNumbered-append newer snapshot h),
            )
            (add_row-IsNumbered _ e _ h new (count_stream-le e.stream_id newer snapshot))
      | inr (old, found) ↦ rw (found, insert_event) h
    ]
