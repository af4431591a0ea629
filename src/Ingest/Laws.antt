-- ===== src/Ingest/Laws.antt =====
-- What `Ingest` promises, over any store, publisher, clock and UUID generator.
use nocturne_atlas_event_str.Prelude.{
  String, ◌≡◌, refl, ap, ◌∙◌, ◌≢◌, false, true, Option, none, some, List, [], ◌∷◌, arith, ◌==◌,
  ◌||◌, eq_iff, if◌then◌else◌, Bool-cases, inl, inr,
}
use nocturne_atlas_event_str.Prelude.Int.{ℤ, pos, ltb_ℤ}
use nocturne_atlas_event_str.Exec.Rules.{after_ok, after_guard}
use nocturne_atlas_event_str.Exec.{
  Error, raise_if, ◌>>◌, Result, ok, err, text, or_wrap, attempt, pure, ◌>>=◌,
}
use nocturne_atlas_event_str.Domain.{
  Time, Metadata, or_empty, Event, Identity, Context, identity_from_context, tenant_of, Runtime,
  Store, Publisher, Appended, Contracts, required_identity, knows, set_version,
}
use nocturne_atlas_event_str.Ingest.{
  Command, envelope, ingest, resolved_correlation, persist, accept, accept_with,
}

-- Absent metadata is the empty map.
abbrev pub Labels : Option Metadata → Metadata → Type 0
Labels none m = m ≡ []
Labels (some given) m = m ≡ given

or_empty-Labels : (given : Option Metadata) → Labels given (or_empty given)
or_empty-Labels none = refl
or_empty-Labels (some m) = refl

-- The event holds what the command and the caller's identity say.
pub record Describes (identity : Identity) (cmd : Command) (e : Event) : Type 0 where
  pub tenant : e.tenant_id ≡ identity.tenant_id
  pub stream : e.stream_id ≡ cmd.stream_id
  pub kind : e.type ≡ cmd.type
  pub origin : e.source ≡ cmd.source
  pub traceable : e.correlation_id ≢ ""
  pub correlated : cmd.correlation_id ≢ "" → e.correlation_id ≡ cmd.correlation_id
  pub caused : e.causation_id ≡ cmd.causation_id
  pub acted : e.actor_id ≡ cmd.actor_id
  pub traced : e.trace_id ≡ cmd.trace_id
  pub schema :
      e.event_version ≡ (if ltb_ℤ (pos 0) cmd.event_version then cmd.event_version else pos 1)
  pub body : e.payload ≡ (if cmd.payload == "" then "null" else cmd.payload)
  pub labels : Labels cmd.metadata e.metadata
  pub revision : e.source_version ≡ cmd.source_version
  pub original : e.is_replay ≡ false
  pub no_replay : (e.replay_id ≡ "") × (e.replay_reason ≡ "") × (e.replay_source_event_id ≡ "")
  pub not_replayed : e.replayed_at ≡ none

module _ {S : Type 0} (rt : Runtime S) (store : Store S) (publisher : Publisher S)
    (events : S → List Event) (laws : Contracts rt store publisher events) where
  abbrev Persisted : Context → Event → S → Result Event → S → Type 0
  Persisted ctx e s (ok e') s' =
      (stored : S) × (e' ≡ set_version e e'.version)
      × (events stored ≡ e' ∷ events s)
      × (s' ≡ (publisher.publish ctx e' stored).1)
  Persisted ctx e s (err _) s' =
      (events s' ≡ events s) × ((x : Error) × (store.append ctx e s ≡ (err x, s')))

  persist_lem :
      (ctx : Context) (e : Event) (s : S)
      → knows (events s) e.id ≡ false
      → let (r, s') = persist rt store publisher ctx e s in Persisted ctx e s r s'
  unfolding persist
  persist_lem ctx e s new =
      go (store.append ctx e s).0 (store.append ctx e s).1 refl (laws.append_law ctx e s new)
    where
      go :
          (r : Result Event) (s1 : S)
          → store.append ctx e s ≡ (r, s1)
          → Appended (events s) e r (events s1)
          → let (r', s') =
              (or_wrap "append to store" (λ (_ : S). (r, s1)) >>= λ e'.
              attempt (publisher.publish ctx e') >>= λ _. pure e')
                s in
            Persisted ctx e s r' s'
      go (ok e') s1 ran (same, logged) = (s1, same, logged, refl)
      go (err x) s1 ran h = (h, (x, ran))

  -- The correlation ID that is used: the given one, or a fresh one.
  resolved_correlation_lem :
      (given : String) (s : S)
      → (c : String) × (s1 : S) × (resolved_correlation rt store publisher given s ≡ (ok c, s1))
        × (c ≢ "")
        × (given ≢ "" → c ≡ given)
        × (events s1 ≡ events s)
  unfolding resolved_correlation
  resolved_correlation_lem given s = elim (Bool-cases (given == "")) [
    | inl empty ↦ (
      (rt.new_uuid s).0,
      (rt.new_uuid s).1,
      rw empty,
      laws.uuid_nonempty s,
      λ h. absurd (h ((eq_iff given "").0 empty)),
      laws.uuid_keeps s,
    )
    | inr given_one ↦
        (given, s, rw given_one, λ e. ground (arith, eq_iff given ""), λ _. refl, refl)
  ]

  -- `s'` comes from publishing the event in a state that holds it as its newest.
  pub record Ingested (ctx : Context) (caller : Identity) (cmd : Command) (s : S) (e : Event)
      (s' : S) : Type 0 where
    pub describes : Describes caller cmd e
    pub clock : S
    pub dated : e.occurred_at ≡ (rt.now clock).0
    pub unused : knows (events s) e.id ≡ false
    pub stored : S
    pub logged : events stored ≡ e ∷ events s
    pub published : s' ≡ (publisher.publish ctx e stored).1
    pub kept : events s' ≡ e ∷ events s

  -- Why the call fails: there is no tenant or a field is missing, and nothing was done, or the store
  -- did not append the event.
  pub data Failed (ctx : Context) (cmd : Command) (s : S) : S → Type 0 where
    no_caller : tenant_of (identity_from_context ctx) ≡ none → Failed ctx cmd s s
    incomplete :
        (cmd.stream_id == "" || cmd.type == "" || cmd.source == "") ≡ true → Failed ctx cmd s s
    not_appended :
        (caller : Identity) (e : Event) (s1 : S) (x : Error) {s' : S}
        → Describes caller cmd e
        → store.append ctx e s1 ≡ (err x, s')
        → Failed ctx cmd s s'

  abbrev pub Outcome : Context → Identity → Command → S → Result Event → S → Type 0
  Outcome ctx caller cmd s (ok e) s' = Ingested ctx caller cmd s e s'
  Outcome ctx caller cmd s (err _) s' = (events s' ≡ events s) × Failed ctx cmd s s'

  envelope-Describes :
      (id : String) (now : Time) (c : String) (caller : Identity) (cmd : Command) (v : ℤ)
      → c ≢ ""
      → (cmd.correlation_id ≢ "" → c ≡ cmd.correlation_id)
      → Describes caller cmd (set_version (envelope id now c caller cmd) v)
  unfolding envelope
  envelope-Describes id now c caller cmd v ne given = record {
    tenant = refl;
    stream = refl;
    kind = refl;
    origin = refl;
    traceable = ne;
    correlated = given;
    caused = refl;
    acted = refl;
    traced = refl;
    schema = refl;
    body = refl;
    labels = or_empty-Labels cmd.metadata;
    revision = refl;
    original = refl;
    no_replay = (refl, refl, refl);
    not_replayed = refl;
  }

  Persisted-Outcome :
      (ctx : Context) (caller : Identity) (cmd : Command) (s s3 : S) (e : Event)
      → events s3 ≡ events s
      → knows (events s3) e.id ≡ false
      → (k : S) → e.occurred_at ≡ (rt.now k).0
      → ((v : ℤ) → Describes caller cmd (set_version e v))
      → (r : Result Event) (s' : S) → Persisted ctx e s3 r s'
      → Outcome ctx caller cmd s r s'
  Persisted-Outcome ctx caller cmd s s3 e same new k dated says (ok e') s'
        (stored, versioned, logged, published) =
      record {
        describes = rw versioned (says e'.version);
        clock = k;
        dated = ap (λ (x : Event). x.occurred_at) versioned ∙ dated;
        unused = rw (ap (λ (x : Event). x.id) versioned) (rw same at new);
        stored = stored;
        logged = rw same at logged;
        published = published;
        kept = rw published (rw laws.publish_keeps (rw same at logged));
      }
  Persisted-Outcome ctx caller cmd s s3 e same new k dated says (err x) s' (h, (y, ran)) =
      (h ∙ same, not_appended caller e s3 y (says e.version) ran)

  abbrev pub Recorded : Context → Command → S → Result Event → S → Type 0
  Recorded ctx cmd s (ok e) s' =
      (caller : Identity) × (tenant_of (identity_from_context ctx) ≡ some caller)
      × ((cmd.stream_id == "" || cmd.type == "" || cmd.source == "") ≡ false)
      × Ingested ctx caller cmd s e s'
  Recorded ctx cmd s (err _) s' = (events s' ≡ events s) × Failed ctx cmd s s'

  Outcome-Recorded :
      (ctx : Context) (caller : Identity) (cmd : Command) (s : S)
      → tenant_of (identity_from_context ctx) ≡ some caller
      → ((cmd.stream_id == "" || cmd.type == "" || cmd.source == "") ≡ false)
      → (r : Result Event) (s' : S) → Outcome ctx caller cmd s r s'
      → Recorded ctx cmd s r s'
  Outcome-Recorded ctx caller cmd s e c (ok x) s' h = (caller, e, c, h)
  Outcome-Recorded ctx caller cmd s e c (err x) s' h = h

  accept_lem :
      (ctx : Context) (caller : Identity) (cmd : Command) (s : S)
      → let (r, s') = accept rt store publisher ctx caller cmd s in Outcome ctx caller cmd s r s'
  unfolding accept accept_with
  accept_lem ctx caller cmd s =
      let (c, s1, e, ne, given, keeps) = resolved_correlation_lem cmd.correlation_id s in
      let s2 = (rt.new_uuid s1).1 in
      let s3 = (rt.now s2).1 in
      let same : events s3 ≡ events s1 = laws.now_keeps s2 ∙ laws.uuid_keeps s1 in
      let e0 = envelope (rt.new_uuid s1).0 (rt.now s2).0 c caller cmd in
      let new : knows (events s3) e0.id ≡ false = unfold envelope in rw same (laws.uuid_fresh s1) in
      after_ok (Outcome ctx caller cmd s)
        (resolved_correlation rt store publisher cmd.correlation_id)
        (accept_with rt store publisher ctx caller cmd) s c s1 e
        (Persisted-Outcome ctx caller cmd s s3 e0 (same ∙ keeps) new s2 (unfold envelope in refl)
          (λ v. envelope-Describes _ _ c caller cmd v ne given) _ _ (persist_lem ctx e0 s3 new))

-- Over any store, publisher, clock and UUID generator that keep to their contracts, Ingest either
-- returns an event that is what the command and the caller's tenant describe, in every field that
-- they and the defaults determine, has a time that the clock gave, an unused UUID and a correlation
-- ID, is the one event added to the store and was handed to the publisher after that: then the
-- caller has a tenant and the command a stream, a type and a source. Or it fails and the store
-- holds what it held: then the caller has no tenant or one of those is missing, and nothing was
-- called, or the store failed to append an event that the command and a tenant describe.
pub ingest_records :
    {S : Type 0} (rt : Runtime S) (store : Store S) (publisher : Publisher S)
    (events : S → List Event) (laws : Contracts rt store publisher events) (ctx : Context)
    (cmd : Command) (s : S)
    → let (r, s') = ingest rt store publisher ctx cmd s in
      Recorded rt store publisher events laws ctx cmd s r s'
unfolding ingest
ingest_records rt store publisher events laws ctx cmd s =
    go (tenant_of (identity_from_context ctx)) refl
  where
    go :
        (o : Option Identity)
        → tenant_of (identity_from_context ctx) ≡ o
        → let (r, s') =
            (required_identity o >>= λ caller.
            raise_if
              (cmd.stream_id == "" || cmd.type == "" || cmd.source == "")
              (text "stream_id, type, and source are required")
            >> accept rt store publisher ctx caller cmd)
              s in
          Recorded rt store publisher events laws ctx cmd s r s'
    go none e = (refl, no_caller e)
    go (some caller) e =
        after_guard (Recorded rt store publisher events laws ctx cmd s)
          (text "stream_id, type, and source are required")
          (accept rt store publisher ctx caller cmd) s _ (λ missing. (refl, incomplete missing))
          (λ complete.
            Outcome-Recorded rt store publisher events laws ctx caller cmd s e complete _ _
              (accept_lem rt store publisher events laws ctx caller cmd s))
