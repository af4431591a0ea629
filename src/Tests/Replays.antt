-- ===== src/Tests/Replays.antt =====
-- The theorems on the replay of streams at concrete inputs.
use nocturne_atlas_event_str.Prelude.{◌-◌, suc, ◌≡◌, refl, [], ◌∷◌, eq_iff, arith, length}
use nocturne_atlas_event_str.Prelude.Int.{pos}
use nocturne_atlas_event_str.Exec.{ok, err, version_gap}
use nocturne_atlas_event_str.Domain.{Event}
use nocturne_atlas_event_str.Replay
use nocturne_atlas_event_str.Replay.Contiguous.{CountsFrom}
use nocturne_atlas_event_str.Replay.Suffix.{events_from, first_version}
use nocturne_atlas_event_str.Replay.Complete.{with_rows, replay_complete}
use nocturne_atlas_event_str.Replay.Shared.{replay_shared_fails}
use nocturne_atlas_event_str.Postgres.{event_store}
use nocturne_atlas_event_str.Postgres.Table.{row_by_id}
use nocturne_atlas_event_str.Postgres.Versions.{count_stream, IsNumbered}
use nocturne_atlas_event_str.Tests.World.{as_alice, alice, rows, sample}

rows-IsNumbered : IsNumbered rows
unfolding row_by_id
rows-IsNumbered = (refl, refl, (refl, refl, (refl, refl, tt)))

replay_complete_example :
    (Replay.replay event_store as_alice
        (record { stream_id = "order:1"; from_version = pos 1 })
        (with_rows rows)
      ≡ (ok (events_from "order:1" 1 rows), with_rows rows))
    × CountsFrom (first_version 1) (events_from "order:1" 1 rows)
    × (length (events_from "order:1" 1 rows) ≡ suc (count_stream "order:1" rows) - first_version 1)
replay_complete_example =
    replay_complete as_alice alice "order:1" 1 rows refl (λ e. ground (arith, eq_iff "order:1" ""))
      rows-IsNumbered (refl, (refl, (refl, tt))) (omega arith) (omega arith)

-- Two events of acme with one of another tenant between them.
abbrev first : Event
first = sample "p" "acme" "shared" (pos 1) (pos 1000) ""

abbrev theirs : Event
theirs = sample "q" "other" "shared" (pos 2) (pos 1100) ""

abbrev third : Event
third = sample "r" "acme" "shared" (pos 3) (pos 1200) ""

shared-IsNumbered : IsNumbered (third ∷ theirs ∷ first ∷ [])
unfolding row_by_id
shared-IsNumbered = (refl, refl, (refl, refl, (refl, refl, tt)))

replay_shared_fails_example :
    Replay.replay event_store as_alice
      (record { stream_id = "shared"; from_version = pos 1 })
      (with_rows (third ∷ theirs ∷ first ∷ []))
    ≡ (err (version_gap "shared" (pos 2) (pos 3) (pos 1)), with_rows (third ∷ theirs ∷ first ∷ []))
replay_shared_fails_example =
    replay_shared_fails as_alice alice third theirs first [] refl
      (λ e. ground (arith, eq_iff "shared" "")) shared-IsNumbered refl refl refl
      (λ e. ground (arith, eq_iff "other" "acme")) refl (omega arith)
