-- ===== src/Replay/Suffix.antt =====
-- The events of a stream from a version on, in a numbered table (what the replay of
-- internal/application/replay/service.go is for).
use nocturne_atlas_event_str.Prelude.{
  ℕ, suc, ◌+◌, ◌-◌, ◌≤◌, String, ◌≡◌, ap, ◌∙◌, true, false, List, [], ◌∷◌, ◌++◌, ◌==◌, ◌&&◌, eq_iff,
  arith, length, length-append, leb, Bool-cases, inl, inr, if◌then◌else◌,
}
use nocturne_atlas_event_str.Prelude.Int.{pos, leb_ℤ}
use nocturne_atlas_event_str.Domain.{Event}
use nocturne_atlas_event_str.Replay.Contiguous.{CountsFrom}
use nocturne_atlas_event_str.Postgres.Versions.{count_stream, IsNumbered}

-- The events of a stream from a version on, oldest first; the rows stand newest first.
unfoldable pub events_from : String → ℕ → List Event → List Event
events_from stream_id n [] = []
events_from stream_id n (r ∷ rows) =
    let older = events_from stream_id n rows in
    if (r.stream_id == stream_id) && leb_ℤ (pos n) r.version then older ++ r ∷ [] else older

-- The first version that there can be from n on.
abbrev pub first_version : ℕ → ℕ
first_version n = if leb n 1 then 1 else n

CountsFrom-append :
    (m : ℕ) (es : List Event) (e : Event)
    → CountsFrom m es
    → e.version ≡ pos (m + length es)
    → CountsFrom m (es ++ e ∷ [])
CountsFrom-append m [] e h v = (v ∙ ap pos (omega arith), tt)
CountsFrom-append m (x ∷ es) e (here, rest) v =
    (here, CountsFrom-append (m + 1) es e rest (v ∙ ap pos (omega arith)))

-- The events from a version on have consecutive versions, up to that of the newest.
abbrev pub Runs : ℕ → ℕ → List Event → Type 0
Runs n count es = CountsFrom (first_version n) es × (length es ≡ suc count - first_version n)

pub first_le : (n count : ℕ) → leb n (suc count) ≡ true → first_version n ≤ suc count
first_le n count h = ground arith

-- The newest event of the stream joins those from n on, or is too old itself.
Runs-step :
    (n count : ℕ) (older : List Event) (r : Event)
    → r.version ≡ pos (suc count)
    → Runs n count older
    → Runs n (suc count) (if leb_ℤ (pos n) r.version then older ++ r ∷ [] else older)
Runs-step n count older r v (counts, long) = elim (Bool-cases (leb n (suc count))) [
  | inl late ↦
      let k : leb_ℤ (pos n) r.version ≡ true = ground arith in
      rw k (
        CountsFrom-append (first_version n) older r counts (v ∙ ap pos (ground arith)),
        omega (arith, length-append older (r ∷ []), first_le n count late, long),
      )
  | inr early ↦
      let k : leb_ℤ (pos n) r.version ≡ false = ground arith in rw k (counts, ground arith)
]

pub events_from-Runs :
    (stream_id : String) (n : ℕ) (rows : List Event)
    → IsNumbered rows
    → Runs n (count_stream stream_id rows) (events_from stream_id n rows)
unfolding events_from
events_from-Runs stream_id n [] h = (tt, ground arith)
events_from-Runs stream_id n (r ∷ rows) (v, u, h) =
    let before = events_from-Runs stream_id n rows h in
    elim (Bool-cases (r.stream_id == stream_id)) [
      | inr other ↦ rw other before
      | inl same ↦
          let here : r.version ≡ pos (suc (count_stream stream_id rows)) =
            v ∙ ap (λ s. pos (suc (count_stream s rows))) ((eq_iff r.stream_id stream_id).0 same) in
          rw same
            (Runs-step n (count_stream stream_id rows) (events_from stream_id n rows) r here before)
    ]
