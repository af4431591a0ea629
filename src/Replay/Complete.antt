-- ===== src/Replay/Complete.antt =====
-- The read-only replay (internal/application/replay/service.go) on the PostgreSQL store
-- (internal/infrastructure/postgres/store.go): a stream of one tenant is replayed whole.
use nocturne_atlas_event_str.Prelude.{
  ℕ, suc, ◌+◌, ◌-◌, ◌≤◌, ◌^◌, String, ◌≡◌, ◌≢◌, refl, ap, ◌∙◌, Bool, true, false, Option, none,
  some, List, [], ◌∷◌, ◌++◌, ◌==◌, ◌&&◌, ◌||◌, not, eq_iff, arith, All, length, leb, select,
  Bool-cases, inl, inr,
}
use nocturne_atlas_event_str.Prelude.Int.{pos, leb_ℤ, ltb_ℤ}
use nocturne_atlas_event_str.Exec.{ok, or_wrap, lift, pure, ◌>>◌}
use nocturne_atlas_event_str.Exec.Rules.{bind_ok, or_wrap-ok}
use nocturne_atlas_event_str.Domain.{Event, Identity, Context, identity_from_context, tenant_of}
use nocturne_atlas_event_str.Replay
use nocturne_atlas_event_str.Replay.{validate_contiguous}
use nocturne_atlas_event_str.Replay.Contiguous.{CountsFrom, validate_contiguous_iff}
use nocturne_atlas_event_str.Postgres.{Db, event_store, statement}
use nocturne_atlas_event_str.Postgres.Sql.{
  txt, int, stream, tenant, equals, from_version, where_all, holds, order_by, place, version_asc,
}
use nocturne_atlas_event_str.Postgres.Queries.{get_from_version, select_where}
use nocturne_atlas_event_str.Postgres.Versions.{count_stream, IsNumbered}
use nocturne_atlas_event_str.Replay.Suffix.{events_from, first_version, first_le, events_from-Runs}

-- A version above those of the list goes to its end.
place_last :
    (v : ℕ) (m : ℕ) (es : List Event) (e : Event)
    → e.version ≡ pos v
    → CountsFrom m es
    → m + length es ≤ v
    → place version_asc e es ≡ es ++ e ∷ []
unfolding place
place_last v m [] e here counts le = refl
place_last v m (x ∷ es) e here (first, rest) le =
    let later : version_asc e x ≡ false = ground arith in
    rw later (ap (λ l. x ∷ l) (place_last v (m + 1) es e here rest (omega arith)))

-- Every event of the stream belongs to the tenant.
abbrev pub IsOwned : String → String → List Event → Type 0
IsOwned stream_id tenant_id rows =
    All (λ r. (not (r.stream_id == stream_id) || (r.tenant_id == tenant_id)) ≡ true) rows

module _ (stream_id tenant_id : String) (n : ℕ) where
  abbrev pub wanted : Event → Bool
  wanted r =
      where_all (txt stream_id ∷ int (pos n) ∷ txt tenant_id ∷ []) r
        (equals stream 1 ∷ from_version 2 ∷ equals tenant 3 ∷ [])

  wanted_lem :
      (r : Event)
      → (not (r.stream_id == stream_id) || (r.tenant_id == tenant_id)) ≡ true
      → wanted r ≡ ((r.stream_id == stream_id) && leb_ℤ (pos n) r.version)
  unfolding where_all holds
  wanted_lem r owned = elim (Bool-cases (r.stream_id == stream_id)) [
    | inl same ↦
        let mine : (r.tenant_id == tenant_id) ≡ true = ground arith in
        rw (same, mine) (ground arith)
    | inr other ↦ rw other refl
  ]

  sorted_lem :
      (rows : List Event)
      → IsNumbered rows
      → IsOwned stream_id tenant_id rows
      → order_by version_asc (select wanted rows) ≡ events_from stream_id n rows
  unfolding order_by events_from
  sorted_lem [] h owned = refl
  sorted_lem (r ∷ rows) (v, u, h) (own, owned) =
      let ih = sorted_lem rows h owned in
      let (counts, long) = events_from-Runs stream_id n rows h in
      elim (Bool-cases (r.stream_id == stream_id)) [
        | inr other ↦ rw (wanted_lem r own, other) ih
        | inl same ↦
            let here : r.version ≡ pos (suc (count_stream stream_id rows)) =
              v
              ∙ ap (λ s. pos (suc (count_stream s rows))) ((eq_iff r.stream_id stream_id).0 same) in
            elim (Bool-cases (leb_ℤ (pos n) r.version)) [
              | inr early ↦ rw (wanted_lem r own, same, early) ih
              | inl late ↦
                  let le : leb n (suc (count_stream stream_id rows)) ≡ true = ground arith in
                  rw (wanted_lem r own, same, late, ih)
                    (place_last (suc (count_stream stream_id rows)) (first_version n)
                      (events_from stream_id n rows) r here counts
                      (omega (arith, long, first_le n (count_stream stream_id rows) le)))
            ]
      ]

validated :
    (n : ℕ) (es : List Event)
    → CountsFrom n es
    → n + length es ≤ 2 ^ 63
    → validate_contiguous es ≡ ok tt
unfolding validate_contiguous
validated n [] h small = refl
validated n (e ∷ es) (here, rest) small =
    (validate_contiguous_iff n e es here (omega arith)).1 (here, rest)

abbrev pub with_rows : List Event → Db
with_rows rows = record { rows = rows; faults = [] }

-- What the store selects for the caller, in order.
abbrev pub read_events : String → String → ℕ → List Event → List Event
read_events stream_id tenant_id n rows =
    order_by version_asc (select (wanted stream_id tenant_id n) rows)

read_lem :
    (ctx : Context) (caller : Identity) (stream_id : String) (n : ℕ) (rows : List Event)
    → tenant_of (identity_from_context ctx) ≡ some caller
    → event_store.get_from_version ctx stream_id (pos n) (with_rows rows)
      ≡ (ok (read_events stream_id caller.tenant_id n rows), with_rows rows)
unfolding event_store statement get_from_version select_where
read_lem ctx caller stream_id n rows who =
    ap
      (λ (o : Option Identity). (
        ok (elim o [
          | some identity ↦ read_events stream_id identity.tenant_id n rows
          | none ↦ order_by version_asc (
              select
                (λ e.
                  where_all (txt stream_id ∷ int (pos n) ∷ []) e
                    (equals stream 1 ∷ from_version 2 ∷ []))
                rows)
        ]),
        with_rows rows,
      ))
      who

-- The replay is the check of what the store selects.
pub replay_lem :
    (ctx : Context) (caller : Identity) (stream_id : String) (n : ℕ) (rows : List Event)
    → tenant_of (identity_from_context ctx) ≡ some caller
    → stream_id ≢ ""
    → let es = read_events stream_id caller.tenant_id n rows in
      Replay.replay event_store ctx
        (record { stream_id = stream_id; from_version = pos n })
        (with_rows rows)
      ≡ (lift (validate_contiguous es) >> pure es) (with_rows rows)
unfolding Replay.replay
replay_lem ctx caller stream_id n rows who named =
    let given : (stream_id == "") ≡ false = ground (arith, eq_iff stream_id "") in
    let low : ltb_ℤ (pos n) (pos 0) ≡ false = ground arith in
    rw (who, given, low)
      (bind_ok
        (or_wrap "read events from store" (event_store.get_from_version ctx stream_id (pos n)))
        (λ es. lift (validate_contiguous es) >> pure es) (with_rows rows)
        (or_wrap-ok "read events from store" (event_store.get_from_version ctx stream_id (pos n))
          (with_rows rows) (read_lem ctx caller stream_id n rows who)))

-- On a table that is numbered, a stream whose events all belong to the caller's tenant is replayed
-- whole from any version on, as long as no statement fails: the replay succeeds, with exactly the
-- events of the stream from that version on, oldest first; their versions count up from the version
-- asked for, or from 1 where 0 is, to that of the newest event, and the table is as it was.
pub replay_complete :
    (ctx : Context) (caller : Identity) (stream_id : String) (n : ℕ) (rows : List Event)
    → tenant_of (identity_from_context ctx) ≡ some caller
    → stream_id ≢ ""
    → IsNumbered rows
    → IsOwned stream_id caller.tenant_id rows
    → n ≤ count_stream stream_id rows
    → count_stream stream_id rows ≤ 2 ^ 63 - 1
    → (Replay.replay event_store ctx
          (record { stream_id = stream_id; from_version = pos n })
          (with_rows rows)
        ≡ (ok (events_from stream_id n rows), with_rows rows))
      × CountsFrom (first_version n) (events_from stream_id n rows)
      × (length (events_from stream_id n rows)
          ≡ suc (count_stream stream_id rows) - first_version n)
replay_complete ctx caller stream_id n rows who named numbered owned small_n small =
    let (counts, long) = events_from-Runs stream_id n rows numbered in
    let passes = validated (first_version n) (events_from stream_id n rows) counts (ground arith) in
    (
      replay_lem ctx caller stream_id n rows who named
          ∙ ap (λ es. (lift (validate_contiguous es) >> pure es) (with_rows rows))
              (sorted_lem stream_id caller.tenant_id n rows numbered owned)
          ∙ rw passes refl,
      counts,
      long,
    )
