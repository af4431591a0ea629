-- ===== src/Replay/Outcome.antt =====
-- How `ReplayEngine.Execute` (internal/application/replay/service.go) can end.
use nocturne_atlas_event_str.Prelude.{
  ℕ, suc, ◌+◌, ◌≤◌, String, ◌≡◌, refl, ap, sym, ◌∙◌, ◌⊎◌, inl, inr, Bool, true, false, List, [],
  ◌∷◌, length, arith, if◌then◌else◌,
}
use nocturne_atlas_event_str.Exec.{Result, ok, err, or_wrap, pure, ◌>>=◌}
use nocturne_atlas_event_str.Exec.Rules.{after, after_ok, bind_ok, or_wrap-eq-ok, or_wrap-state}
use nocturne_atlas_event_str.Domain.{
  Time, Event, Context, ReplayFilter, Runtime, Store, Publisher, Contracts,
}
use nocturne_atlas_event_str.Replay.Engine.{
  ReplayOptions, ReplayResult, append_all, publish_all, failures, replay_matched, conclude,
  run_scoped, effective_limit,
}
use nocturne_atlas_event_str.Replay.Laws.{onto, Replays, Stopped, append_all_lem}

Replays-length :
    (replay_id : String) (started : Time) (reason : String) (matched es : List Event)
    → Replays replay_id started reason matched es
    → length es ≡ length matched
Replays-length i t r [] [] h = refl
Replays-length i t r (m ∷ ms) (e ∷ es) h = ap suc (Replays-length i t r ms es h.1)
Replays-length i t r [] (e ∷ es) h = absurd h
Replays-length i t r (m ∷ ms) [] h = absurd h

-- What a run that returned a result has done, by whether it was a dry run.
abbrev pub Concluded : Bool → String → List Event → List Event → ReplayResult → List Event → Type 0
Concluded true reason matched log res log' =
    (res.events ≡ matched) × (res.replay_id ≡ "") × (res.replayed_count ≡ 0) × (log' ≡ log)
Concluded false reason matched log res log' =
    (started : Time) × Replays res.replay_id started reason matched res.events
    × (res.replayed_count ≡ length matched)
    × (log' ≡ onto res.events log)

-- What a run that failed has left behind: nothing, or the replays before the append that failed.
abbrev pub Abandoned : Bool → String → List Event → List Event → Type 0
Abandoned dry_run reason log log' =
    (log' ≡ log)
    ⊎ ((dry_run ≡ false)
        × ((replay_id : String) × (started : Time) × (matched : List Event) × Stopped replay_id
              started reason matched log log'))

module _ {S : Type 0} (rt : Runtime S) (store : Store S) (publisher : Publisher S)
    (events : S → List Event) (laws : Contracts rt store publisher events) (ctx : Context) where
  -- Publishing counts its failures, never fails, and leaves the store alone.
  pub publish_all_lem :
      (es : List Event) (s : S)
      → (n : ℕ) × (s' : S) × (publish_all rt store publisher ctx es s ≡ (ok n, s'))
        × (n ≤ length es)
        × (events s' ≡ events s)
  unfolding publish_all
  publish_all_lem [] s = (0, s, refl, omega arith, refl)
  publish_all_lem (e ∷ es) s =
      let r = publisher.publish ctx e s in
      let (n, s', p, small, same) = publish_all_lem es r.1 in
      (
        failures r.0 + n,
        s',
        bind_ok (publish_all rt store publisher ctx es) (λ n. pure (failures r.0 + n)) r.1 p,
        few r.0 n small,
        same ∙ laws.publish_keeps ctx e s,
      )
    where
      few : (r : Result (Unit {0})) (n : ℕ) → n ≤ length es → failures r + n ≤ suc (length es)
      few (ok _) n h = omega arith
      few (err _) n h = omega arith

  abbrev Ended : Bool → String → List Event → S → Result ReplayResult → S → Type 0
  Ended dry_run reason matched s (ok res) s' =
      (res.matched_count ≡ length matched)
      × (res.dry_run ≡ dry_run)
      × Concluded dry_run reason matched (events s) res (events s')
  Ended dry_run reason matched s (err _) s' = Abandoned dry_run reason (events s) (events s')

  replay_matched_lem :
      (reason : String) (matched : List Event) (s : S)
      → let (r, s') = replay_matched rt store publisher ctx reason matched s in
        Ended false reason matched s r s'
  unfolding replay_matched
  replay_matched_lem reason matched s =
      let id = (rt.new_uuid s).0 in
      let s1 = (rt.new_uuid s).1 in
      let started = (rt.now s1).0 in
      let s2 = (rt.now s1).1 in
      let same : events s2 ≡ events s = laws.now_keeps s1 ∙ laws.uuid_keeps s in
      let all = append_all_lem rt store publisher events laws ctx id started reason matched s2 in
      after (Ended false reason matched s)
        (append_all rt store publisher ctx id started reason matched)
        (λ replayed. publish_all rt store publisher ctx replayed >>= λ n. pure (record {
          replay_id = id;
          dry_run = false;
          matched_count = length matched;
          replayed_count = length replayed;
          events = replayed;
        }))
        s2
        (λ es s3 p.
          let (n, s4, q, few, kept) = publish_all_lem es s3 in
          let done = rw p at all in
          after_ok (Ended false reason matched s) (publish_all rt store publisher ctx es)
            (λ _. pure (record {
              replay_id = id;
              dry_run = false;
              matched_count = length matched;
              replayed_count = length es;
              events = es;
            }))
            s3 n s4 q
            (
              refl,
              refl,
              (
                started,
                done.0,
                Replays-length id started reason matched es done.0,
                kept ∙ rw same at (done.1),
              ),
            ))
        (λ x s3 p. inr (refl, (id, started, matched, rw same at (rw p at all))))

  conclude_lem :
      (options : ReplayOptions) (matched : List Event) (s : S)
      → let (r, s') = conclude rt store publisher ctx options matched s in
        Ended options.dry_run options.replay_reason matched s r s'
  unfolding conclude
  conclude_lem options matched s = go options.dry_run
    where
      go :
          (b : Bool)
          → let (r, s') =
              (if b
                  then pure (record {
                    replay_id = "";
                    dry_run = true;
                    matched_count = length matched;
                    replayed_count = 0;
                    events = matched;
                  })
                  else replay_matched rt store publisher ctx options.replay_reason matched)
                s in
            Ended b options.replay_reason matched s r s'
      go true = (refl, refl, (refl, refl, refl, refl))
      go false = replay_matched_lem options.replay_reason matched s

  -- The query, on the caller's tenant, gave the matched events.
  abbrev pub Queried : ReplayFilter → ReplayOptions → S → List Event → Type 0
  Queried f options s matched =
      (s1 : S) × (store.query_for_replay ctx f (effective_limit options.safety_limit) s
        ≡ (ok matched, s1))

  abbrev pub RunEnded : ReplayFilter → ReplayOptions → S → Result ReplayResult → S → Type 0
  RunEnded f options s (ok res) s' =
      (matched : List Event) × Queried f options s matched
      × (res.matched_count ≡ length matched)
      × (res.dry_run ≡ options.dry_run)
      × Concluded options.dry_run options.replay_reason matched (events s) res (events s')
  RunEnded f options s (err _) s' =
      Abandoned options.dry_run options.replay_reason (events s) (events s')

  Ended-RunEnded :
      (f : ReplayFilter) (options : ReplayOptions) (s s1 : S) (matched : List Event)
      → store.query_for_replay ctx f (effective_limit options.safety_limit) s ≡ (ok matched, s1)
      → events s1 ≡ events s
      → (r : Result ReplayResult) (s' : S)
      → Ended options.dry_run options.replay_reason matched s1 r s'
      → RunEnded f options s r s'
  Ended-RunEnded f options s s1 matched p same (ok res) s' (c, d, done) =
      (matched, (s1, p), c, d, rw same at done)
  Ended-RunEnded f options s s1 matched p same (err x) s' h = rw same at h

  pub run_scoped_lem :
      (f : ReplayFilter) (options : ReplayOptions) (s : S)
      → let (r, s') = run_scoped rt store publisher ctx f options s in RunEnded f options s r s'
  unfolding run_scoped
  run_scoped_lem f options s =
      after (RunEnded f options s)
        (or_wrap "query events for replay"
          (store.query_for_replay ctx f (effective_limit options.safety_limit)))
        (conclude rt store publisher ctx options) s
        (λ matched s1 p.
          let q =
            or_wrap-eq-ok "query events for replay"
              (store.query_for_replay ctx f (effective_limit options.safety_limit)) s p in
          let same : events s1 ≡ events s =
            rw q at (laws.query_keeps ctx f (effective_limit options.safety_limit) s) in
          Ended-RunEnded f options s s1 matched q same _ _ (conclude_lem options matched s1))
        (λ x s1 p. inl (
          ap (λ (y : Result (List Event) × S). events y.1) (sym p)
          ∙ ap events (
              or_wrap-state _ (store.query_for_replay ctx f (effective_limit options.safety_limit))
                s)
          ∙ laws.query_keeps ctx f _ s))
