-- ===== src/Replay/Laws.antt =====
-- What `ReplayEngine.Execute` (internal/application/replay/service.go) promises, over any store,
-- publisher, clock and UUID generator that keep to their contracts.
use nocturne_atlas_event_str.Prelude.{String, ◌≡◌, refl, ap, ◌∙◌, false, List, [], ◌∷◌, ◌++◌}
use nocturne_atlas_event_str.Prelude.Int.{ℤ}
use Prim.Native.String
use nocturne_atlas_event_str.Exec.{Result, ok, err, or_wrap, pure, ◌>>=◌}
use nocturne_atlas_event_str.Exec.Rules.{after}
use nocturne_atlas_event_str.Domain.{
  Time, Event, set_version, Context, Runtime, Store, Publisher, Appended, Contracts, knows,
}
use nocturne_atlas_event_str.Replay.Engine.{replay_event, append_one, append_all}
use nocturne_atlas_event_str.Replay.Metadata.{IsReplayOf, replay_event-IsReplayOf}

-- The list with the events added one after the other, the last one at its head.
abbrev pub onto : List Event → List Event → List Event
onto [] log = log
onto (e ∷ es) log = onto es (e ∷ log)

-- The second list holds a replay of each event of the first, in order.
abbrev pub Replays : String → Time → String → List Event → List Event → Type 0
Replays replay_id started reason [] [] = Unit
Replays replay_id started reason (orig ∷ origs) (e ∷ es) =
    IsReplayOf replay_id started reason orig e × Replays replay_id started reason origs es
Replays replay_id started reason _ _ = ⊥

-- The appends stopped at `failed`: what came before it is in the store.
pub record Stopped (replay_id : String) (started : Time) (reason : String)
    (matched log log' : List Event) : Type 0 where
  pub before : List Event
  pub failed : Event
  pub left : List Event
  pub cut : matched ≡ before ++ failed ∷ left
  pub done : List Event
  pub replayed : Replays replay_id started reason before done
  pub stored : log' ≡ onto done log

module _ {S : Type 0} (rt : Runtime S) (store : Store S) (publisher : Publisher S)
    (events : S → List Event) (laws : Contracts rt store publisher events) (ctx : Context)
    (replay_id : String) (started : Time) (reason : String) where
  abbrev OneDone : Event → S → Result Event → S → Type 0
  OneDone orig s (ok e) s' = IsReplayOf replay_id started reason orig e × (events s' ≡ e ∷ events s)
  OneDone orig s (err _) s' = events s' ≡ events s

  append_one_lem :
      (orig : Event) (s : S)
      → let (r, s') = append_one rt store publisher ctx replay_id started reason orig s in
        OneDone orig s r s'
  unfolding append_one
  append_one_lem orig s =
      let s1 = (rt.new_uuid s).1 in
      let s2 = (rt.now s1).1 in
      let same : events s2 ≡ events s = laws.now_keeps s1 ∙ laws.uuid_keeps s in
      let e0 = replay_event (rt.new_uuid s).0 (rt.now s1).0 replay_id started reason orig in
      let new : knows (events s2) e0.id ≡ false =
        unfold replay_event in rw same (laws.uuid_fresh s) in
      go e0 s2 same (replay_event-IsReplayOf _ _ replay_id started reason orig)
        (store.append ctx e0 s2).0 (store.append ctx e0 s2).1 (laws.append_law ctx e0 s2 new)
    where
      go :
          (e0 : Event) (s2 : S)
          → events s2 ≡ events s
          → ((v : ℤ) → IsReplayOf replay_id started reason orig (set_version e0 v))
          → (r : Result Event) (s' : S) → Appended (events s2) e0 r (events s')
          → let (r', s'') =
              or_wrap (String.◌++◌ "replay: append event " orig.id) (λ (_ : S). (r, s')) s in
            OneDone orig s r' s''
      go e0 s2 same says (ok e) s' (versioned, logged) =
          (rw versioned (says e.version), rw same at logged)
      go e0 s2 same says (err x) s' h = h ∙ same

  abbrev pub AllDone : List Event → S → Result (List Event) → S → Type 0
  AllDone matched s (ok es) s' =
      Replays replay_id started reason matched es × (events s' ≡ onto es (events s))
  AllDone matched s (err _) s' = Stopped replay_id started reason matched (events s) (events s')

  pub append_all_lem :
      (matched : List Event) (s : S)
      → let (r, s') = append_all rt store publisher ctx replay_id started reason matched s in
        AllDone matched s r s'
  unfolding append_all
  append_all_lem [] s = (tt, refl)
  append_all_lem (orig ∷ matched) s =
      after (AllDone (orig ∷ matched) s)
        (append_one rt store publisher ctx replay_id started reason orig)
        (λ e. append_all rt store publisher ctx replay_id started reason matched >>= λ replayed.
          pure (e ∷ replayed))
        s
        (λ e s1 p.
          let one : OneDone orig s (ok e) s1 = rw p at (append_one_lem orig s) in
          after (AllDone (orig ∷ matched) s)
            (append_all rt store publisher ctx replay_id started reason matched)
            (λ replayed. pure (e ∷ replayed)) s1
            (λ es s2 q.
              let rest : AllDone matched s1 (ok es) s2 = rw q at (append_all_lem matched s1) in
              ((one.0, rest.0), rw (one.1) at (rest.1)))
            (λ x s2 q.
              let rest : AllDone matched s1 (err x) s2 = rw q at (append_all_lem matched s1) in
              Stopped-cons e one.0 one.1 rest))
        (λ x s1 p.
          let same : OneDone orig s (err x) s1 = rw p at (append_one_lem orig s) in
          record {
            before = [];
            failed = orig;
            left = matched;
            cut = refl;
            done = [];
            replayed = tt;
            stored = same;
          })
    where
      Stopped-cons :
          (e : Event) {s1 s2 : S}
          → IsReplayOf replay_id started reason orig e
          → events s1 ≡ e ∷ events s
          → Stopped replay_id started reason matched (events s1) (events s2)
          → Stopped replay_id started reason (orig ∷ matched) (events s) (events s2)
      Stopped-cons e one logged st = record {
        before = orig ∷ st.before;
        failed = st.failed;
        left = st.left;
        cut = ap (λ (l : List Event). orig ∷ l) st.cut;
        done = e ∷ st.done;
        replayed = (one, st.replayed);
        stored = rw logged at st.stored;
      }
