-- ===== src/Tests/World.antt =====
-- A world for the examples: the database, a UUID generator that no stored event has met, and a
-- clock that stands still.
use Prim.Native.String.{◌++◌, count}
use package.text.Mathlib.TextLemmas.{length-append}
use nocturne_atlas_event_str.Prelude.{
  ◌≤◌, ◌+◌, String, ◌≡◌, ◌≢◌, refl, ap, false, none, List, [], ◌∷◌, ◌==◌, eq_iff, arith, Bool-cases,
  inl, inr,
}
use nocturne_atlas_event_str.Prelude.Int.{ℤ, pos}
use nocturne_atlas_event_str.Exec.{Error, raise}
use nocturne_atlas_event_str.Domain.{
  Event, Identity, Context, background, with_identity, Runtime, Publisher, Contracts, knows,
}
use nocturne_atlas_event_str.Postgres.{Db, event_store}
use nocturne_atlas_event_str.Postgres.Contract.{event_store-Contracts}

-- Longer than every UUID that is in use.
unfoldable pub fresh : List Event → String
fresh [] = "u"
fresh (e ∷ rows) = e.id ++ fresh rows

pub fresh-pos : (rows : List Event) → 1 ≤ count (fresh rows)
unfolding fresh
fresh-pos [] = let e : count "u" ≡ 1 = refl in omega (arith, e)
fresh-pos (e ∷ rows) = omega (arith, fresh-pos rows, length-append e.id (fresh rows))

-- A text as long as `fresh rows` is no UUID of the rows.
pub knows_long :
    (rows : List Event) (u : String) → count (fresh rows) ≤ count u → knows rows u ≡ false
unfolding knows fresh
knows_long [] u h = refl
knows_long (e ∷ rows) u h =
    let le : count e.id + count (fresh rows) ≤ count u = rw (← length-append e.id (fresh rows)) h in
    let rest = knows_long rows u (omega (arith, le)) in
    elim (Bool-cases (e.id == u)) [
      | inl same ↦
          let c : count e.id ≡ count u = ap count ((eq_iff e.id u).0 same) in
          absurd (omega (arith, le, c, fresh-pos rows))
      | inr differ ↦ rw (differ, rest)
    ]

pub fresh_lem : (rows : List Event) → knows rows (fresh rows) ≡ false
fresh_lem rows = knows_long rows (fresh rows) (omega arith)

pub fresh-nonempty : (rows : List Event) → fresh rows ≢ ""
fresh-nonempty rows e =
    let c : count (fresh rows) ≡ count "" = ap count e in
    let z : count "" ≡ 0 = refl in omega (arith, c, z, fresh-pos rows)

abbrev pub world : Runtime Db
world = record { new_uuid = λ db. (fresh db.rows, db); now = λ db. (pos 5000, db) }

-- A broker that is down.
abbrev pub broken : Publisher Db
broken = record { publish = λ ctx e. raise (Error.text "no broker") }

pub world-Contracts : Contracts world event_store broken (λ db. db.rows)
world-Contracts =
    event_store-Contracts world broken (λ ctx e db. refl) (λ db. refl) (λ db. fresh_lem db.rows)
      (λ db. fresh-nonempty db.rows) (λ db. refl)

abbrev pub alice : Identity
alice = record { subject_id = "alice"; tenant_id = "acme"; roles = [] }

abbrev pub as_alice : Context
as_alice = with_identity background alice

-- id, tenant, stream, version, time, cause
abbrev pub sample : String → String → String → ℤ → ℤ → String → Event
sample id tenant_id stream_id version at cause = record {
  id = id;
  tenant_id = tenant_id;
  stream_id = stream_id;
  type = "changed";
  source = "shop";
  version = version;
  event_version = pos 1;
  occurred_at = at;
  correlation_id = "c";
  causation_id = cause;
  actor_id = "";
  trace_id = "";
  source_version = "";
  is_replay = false;
  replay_id = "";
  replayed_at = none;
  replay_reason = "";
  replay_source_event_id = "";
  payload = "{}";
  metadata = [];
}

abbrev pub created : Event
created = sample "a" "acme" "order:1" (pos 1) (pos 1000) ""

abbrev pub paid : Event
paid = sample "b" "acme" "order:1" (pos 2) (pos 2000) "a"

abbrev pub foreign : Event
foreign = sample "z" "other" "order:9" (pos 1) (pos 1500) ""

abbrev pub rows : List Event
rows = paid ∷ foreign ∷ created ∷ []

abbrev pub table : Db
table = record { rows = rows; faults = [] }
