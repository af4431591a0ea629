-- ===== src/Replay/Shared.antt =====
-- The read-only replay (internal/application/replay/service.go) of a stream that two tenants share:
-- versions are counted over all tenants, events are read for one.
use nocturne_atlas_event_str.Prelude.{
  ℕ, suc, ◌+◌, ◌-◌, ◌≤◌, ◌<◌, ◌^◌, String, ◌≡◌, ◌≢◌, refl, ap, ◌∙◌, true, false, some, List, [],
  ◌∷◌, ◌==◌, eq_iff, arith, select, Bool-cases, inl, inr,
}
use nocturne_atlas_event_str.Prelude.Int.{pos, leb_ℤ, eqb_ℤ, int64_add, int64_add_one}
use nocturne_atlas_event_str.Exec.{err, version_gap, lift, pure, ◌>>◌}
use nocturne_atlas_event_str.Domain.{Event, Identity, Context, identity_from_context, tenant_of}
use nocturne_atlas_event_str.Replay
use nocturne_atlas_event_str.Replay.{validate_contiguous, validate_after}
use nocturne_atlas_event_str.Replay.Complete.{wanted, with_rows, read_events, replay_lem}
use nocturne_atlas_event_str.Postgres.{event_store}
use nocturne_atlas_event_str.Postgres.Sql.{where_all, holds, order_by, place, version_asc}
use nocturne_atlas_event_str.Postgres.Versions.{count_stream, IsNumbered}

-- No row of the stream is as new as the version after the newest.
select_newer :
    (stream_id tenant_id : String) (n : ℕ) (rows : List Event)
    → IsNumbered rows
    → count_stream stream_id rows < n
    → select (wanted stream_id tenant_id n) rows ≡ []
unfolding where_all holds
select_newer stream_id tenant_id n [] h lt = refl
select_newer stream_id tenant_id n (r ∷ rows) (v, u, h) lt =
    elim (Bool-cases (r.stream_id == stream_id)) [
      | inr other ↦ rw other (select_newer stream_id tenant_id n rows h (rw other at lt))
      | inl same ↦
          let k : suc (count_stream stream_id rows) < n = rw same at lt in
          let here : r.version ≡ pos (suc (count_stream stream_id rows)) =
            v ∙ ap (λ s. pos (suc (count_stream s rows))) ((eq_iff r.stream_id stream_id).0 same) in
          let old : leb_ℤ (pos n) r.version ≡ false = ground arith in
          rw (same, old) (select_newer stream_id tenant_id n rows h (omega (arith, k)))
    ]

-- What is read where the newest three rows are of one stream, the middle one of another tenant.
module _ (tenant_id : String) (r x y : Event) (rows : List Event)
    (numbered : IsNumbered (r ∷ x ∷ y ∷ rows)) (xs : x.stream_id ≡ r.stream_id)
    (ys : y.stream_id ≡ r.stream_id) where
  abbrev v : ℕ
  v = count_stream r.stream_id rows + 1

  x_in : (x.stream_id == r.stream_id) ≡ true
  x_in = (eq_iff x.stream_id r.stream_id).1 xs

  y_in : (y.stream_id == r.stream_id) ≡ true
  y_in = (eq_iff y.stream_id r.stream_id).1 ys

  y_version : y.version ≡ pos v
  y_version =
      let (rv, ru, (xv, xu, (yv, yu, h))) = numbered in
      yv ∙ ap (λ s. pos (suc (count_stream s rows))) ys ∙ ap pos (omega arith)

  r_version : r.version ≡ pos (v + 2)
  r_version =
      let (rv, ru, rest) = numbered in
      let e : count_stream r.stream_id (x ∷ y ∷ rows) ≡ suc (suc (count_stream r.stream_id rows)) =
        rw (x_in, y_in) refl in
      rv ∙ ap pos (omega (arith, e))

  two_read :
      r.tenant_id ≡ tenant_id
      → x.tenant_id ≢ tenant_id
      → y.tenant_id ≡ tenant_id
      → read_events r.stream_id tenant_id v (r ∷ x ∷ y ∷ rows) ≡ y ∷ r ∷ []
  unfolding where_all holds order_by place
  two_read rt xt yt =
      let (rv, ru, (xv, xu, (yv, yu, h))) = numbered in
      let none_newer = select_newer r.stream_id tenant_id v rows h (omega arith) in
      let r_in : (r.stream_id == r.stream_id) ≡ true = (eq_iff r.stream_id r.stream_id).1 refl in
      let r_own : (r.tenant_id == tenant_id) ≡ true = (eq_iff r.tenant_id tenant_id).1 rt in
      let y_own : (y.tenant_id == tenant_id) ≡ true = (eq_iff y.tenant_id tenant_id).1 yt in
      let x_out : (x.tenant_id == tenant_id) ≡ false =
        ground (arith, eq_iff x.tenant_id tenant_id) in
      let r_late : leb_ℤ (pos v) r.version ≡ true = let e = r_version in ground arith in
      let y_late : leb_ℤ (pos v) y.version ≡ true = let e = y_version in ground arith in
      let later : version_asc r y ≡ false =
        let e = r_version in let f = y_version in ground arith in
      let w_r : wanted r.stream_id tenant_id v r ≡ true = rw (r_in, r_late, r_own) refl in
      let w_x : wanted r.stream_id tenant_id v x ≡ false = rw (x_in, x_out) (ground arith) in
      let w_y : wanted r.stream_id tenant_id v y ≡ true = rw (y_in, y_late, y_own) refl in
      rw (w_r, w_x, w_y, none_newer, later) refl

  gap_found :
      v + 2 ≤ 2 ^ 63 - 1
      → validate_contiguous (y ∷ r ∷ [])
        ≡ err (version_gap r.stream_id (pos (v + 1)) (pos (v + 2)) (pos v))
  unfolding validate_contiguous validate_after
  gap_found small =
      let e = r_version in
      let f = y_version in
      let next : int64_add y.version (pos 1) ≡ pos (v + 1) = rw f (int64_add_one v (omega arith)) in
      let gap : eqb_ℤ r.version (pos (v + 1)) ≡ false = ground arith in
      rw (next, gap) (rw (e, f) refl)

-- Versions are counted over all tenants of a stream, but a replay reads the caller's events only:
-- on a numbered table whose three newest rows are of one stream, the middle one of another tenant
-- and the others of the caller, the caller's replay from the oldest of the three on fails with a
-- version gap, although every event is there.
pub replay_shared_fails :
    (ctx : Context) (caller : Identity) (r x y : Event) (rows : List Event)
    → tenant_of (identity_from_context ctx) ≡ some caller
    → r.stream_id ≢ ""
    → IsNumbered (r ∷ x ∷ y ∷ rows)
    → x.stream_id ≡ r.stream_id
    → y.stream_id ≡ r.stream_id
    → r.tenant_id ≡ caller.tenant_id
    → x.tenant_id ≢ caller.tenant_id
    → y.tenant_id ≡ caller.tenant_id
    → count_stream r.stream_id rows + 3 ≤ 2 ^ 63 - 1
    → let v = count_stream r.stream_id rows + 1 in
      let db = with_rows (r ∷ x ∷ y ∷ rows) in
      Replay.replay event_store ctx (record { stream_id = r.stream_id; from_version = pos v }) db
      ≡ (err (version_gap r.stream_id (pos (v + 1)) (pos (v + 2)) (pos v)), db)
replay_shared_fails ctx caller r x y rows who named numbered xs ys rt xt yt small =
    let v = count_stream r.stream_id rows + 1 in
    replay_lem ctx caller r.stream_id v (r ∷ x ∷ y ∷ rows) who named
    ∙ ap (λ es. (lift (validate_contiguous es) >> pure es) (with_rows (r ∷ x ∷ y ∷ rows)))
        (two_read caller.tenant_id r x y rows numbered xs ys rt xt yt)
    ∙ rw (gap_found caller.tenant_id r x y rows numbered xs ys (omega (arith, small))) refl
