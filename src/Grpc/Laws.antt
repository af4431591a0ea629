-- ===== src/Grpc/Laws.antt =====
-- How the replay call ends (internal/infrastructure/grpcserver/handler.go with `Replay` of
-- internal/application/replay/service.go).
use nocturne_atlas_event_str.Prelude.{
  String, ◌≡◌, ◌≢◌, refl, ap, ◌∙◌, false, true, Option, none, some, List, [], ◌∷◌, ◌==◌, eq_iff,
  map, arith, Bool-cases, inl, inr,
}
use nocturne_atlas_event_str.Prelude.Int.{pos, ltb_ℤ, eqb_ℤ, int64_add}
use nocturne_atlas_event_str.Exec.{
  Error, text, Result, ok, err, Exec, lift, raise_if, or_wrap, pure, ◌>>=◌, ◌>>◌,
}
use nocturne_atlas_event_str.Exec.Rules.{after_guard, after_or_wrap}
use nocturne_atlas_event_str.Domain.{
  Event, Identity, Context, identity_from_context, tenant_of, Store, required_identity,
}
use nocturne_atlas_event_str.Replay
use nocturne_atlas_event_str.Replay.{validate_after, validate_contiguous}
use nocturne_atlas_event_str.Grpc
use nocturne_atlas_event_str.Grpc.{
  ReplayCall, ProtoEvent, domain_to_proto, Answer, event_stream, invalid_argument, data_loss,
  call_context, replay_answer,
}

-- The versions count up by one, as 64-bit integers, from that of an event on.
abbrev pub Follows : Event → List Event → Type 0
Follows prev [] = Unit
Follows prev (e ∷ es) = (e.version ≡ int64_add prev.version (pos 1)) × Follows e es

abbrev pub Gapless : List Event → Type 0
Gapless [] = Unit
Gapless (e ∷ es) = Follows e es

validate_after-Follows :
    (prev : Event) (es : List Event) → validate_after prev es ≡ ok tt → Follows prev es
unfolding validate_after
validate_after-Follows prev [] h = tt
validate_after-Follows prev (e ∷ es) h =
    elim (Bool-cases (eqb_ℤ e.version (int64_add prev.version (pos 1)))) [
      | inl next ↦ (ground arith, validate_after-Follows e es (rw next at h))
      | inr gap ↦ absurd (let k = rw gap at h in ground arith)
    ]

validate_contiguous-Gapless : (es : List Event) → validate_contiguous es ≡ ok tt → Gapless es
unfolding validate_contiguous
validate_contiguous-Gapless [] h = tt
validate_contiguous-Gapless (e ∷ es) h = validate_after-Follows e es h

validate_after_complete :
    (prev : Event) (es : List Event) → Follows prev es → validate_after prev es ≡ ok tt
unfolding validate_after
validate_after_complete prev [] h = refl
validate_after_complete prev (e ∷ es) (next, later) =
    let same : eqb_ℤ e.version (int64_add prev.version (pos 1)) ≡ true = ground arith in
    rw same (validate_after_complete e es later)

validate_contiguous_complete : (es : List Event) → Gapless es → validate_contiguous es ≡ ok tt
unfolding validate_contiguous
validate_contiguous_complete [] h = refl
validate_contiguous_complete (e ∷ es) h = validate_after_complete e es h

-- A message of the stream holds an event field by field.
pub record Sends (e : Event) (m : ProtoEvent) : Type 0 where
  pub ids : (m.id ≡ e.id) × (m.stream_id ≡ e.stream_id) × (m.correlation_id ≡ e.correlation_id)
  pub kind : (m.type ≡ e.type) × (m.source ≡ e.source)
  pub at : (m.version ≡ e.version) × (m.occurred_at ≡ e.occurred_at)
  pub body : (m.payload ≡ e.payload) × (m.metadata ≡ e.metadata)

-- They hold the events in order.
abbrev pub SendsAll : List Event → List ProtoEvent → Type 0
SendsAll [] [] = Unit
SendsAll (e ∷ es) (m ∷ ms) = Sends e m × SendsAll es ms
SendsAll _ _ = ⊥

protos-SendsAll : (es : List Event) → SendsAll es (map domain_to_proto es)
unfolding domain_to_proto
protos-SendsAll [] = tt
protos-SendsAll (e ∷ es) = (
  record { ids = (refl, refl, refl); kind = (refl, refl); at = (refl, refl); body = (refl, refl) },
  protos-SendsAll es,
)

module _ {S : Type 0} (store : Store S) where
  -- Why `Replay` fails: there is no tenant, no stream or a negative version, and nothing was read;
  -- or the store failed, or gave a gap.
  pub data Refused (ctx : Context) (cmd : Replay.Command) (s : S) : S → Type 0 where
    no_caller : tenant_of (identity_from_context ctx) ≡ none → Refused ctx cmd s s
    no_stream : (cmd.stream_id == "") ≡ true → Refused ctx cmd s s
    negative : ltb_ℤ cmd.from_version (pos 0) ≡ true → Refused ctx cmd s s
    unread :
        (x : Error) {s' : S}
        → store.get_from_version ctx cmd.stream_id cmd.from_version s ≡ (err x, s')
        → Refused ctx cmd s s'
    gapped :
        (es : List Event) {s' : S}
        → store.get_from_version ctx cmd.stream_id cmd.from_version s ≡ (ok es, s')
        → ¬ Gapless es
        → Refused ctx cmd s s'

  -- What `Replay` returns is what the store gave for a caller with a tenant, and has no gap.
  abbrev pub Replayed : Context → Replay.Command → S → Result (List Event) → S → Type 0
  Replayed ctx cmd s (ok es) s' =
      (caller : Identity) × (tenant_of (identity_from_context ctx) ≡ some caller)
      × (ltb_ℤ cmd.from_version (pos 0) ≡ false)
      × (store.get_from_version ctx cmd.stream_id cmd.from_version s ≡ (ok es, s'))
      × Gapless es
  Replayed ctx cmd s (err _) s' = Refused ctx cmd s s'

  checked :
      (ctx : Context) (cmd : Replay.Command) (caller : Identity) (s s1 : S) (es : List Event)
      → tenant_of (identity_from_context ctx) ≡ some caller
      → ltb_ℤ cmd.from_version (pos 0) ≡ false
      → store.get_from_version ctx cmd.stream_id cmd.from_version s ≡ (ok es, s1)
      → (v : Result (Unit {0})) → validate_contiguous es ≡ v
      → let (r, s') = (lift v >> pure es) s1 in Replayed ctx cmd s r s'
  checked ctx cmd caller s s1 es who low got (ok _) e =
      (caller, who, low, got, validate_contiguous-Gapless es e)
  checked ctx cmd caller s s1 es who low got (err x) e =
      gapped es got (λ h. ground (arith, validate_contiguous_complete es h))

  replay_lem :
      (ctx : Context) (cmd : Replay.Command) (s : S)
      → let (r, s') = Replay.replay store ctx cmd s in Replayed ctx cmd s r s'
  unfolding Replay.replay
  replay_lem ctx cmd s = go (tenant_of (identity_from_context ctx)) refl
    where
      read : Exec S (List Event)
      read = store.get_from_version ctx cmd.stream_id cmd.from_version

      query : Exec S (List Event)
      query = do
        events ← or_wrap "read events from store" read
        lift (validate_contiguous events)
        pure events

      go :
          (o : Option Identity)
          → tenant_of (identity_from_context ctx) ≡ o
          → let (r, s') =
              (required_identity o >>= λ _.
              raise_if (cmd.stream_id == "") (text "stream_id is required")
              >> (raise_if (ltb_ℤ cmd.from_version (pos 0)) (text "from_version must be >= 0")
                  >> query))
                s in
            Replayed ctx cmd s r s'
      go none e = no_caller e
      go (some caller) e =
          after_guard (Replayed ctx cmd s) (text "stream_id is required")
            (raise_if (ltb_ℤ cmd.from_version (pos 0)) (text "from_version must be >= 0") >> query)
            s (cmd.stream_id == "") no_stream
            λ _.
              after_guard (Replayed ctx cmd s) (text "from_version must be >= 0") query s
                (ltb_ℤ cmd.from_version (pos 0)) negative
                λ low.
                  after_or_wrap (Replayed ctx cmd s) "read events from store" read
                    (λ es. lift (validate_contiguous es) >> pure es) s
                    (λ es s1 got.
                      checked ctx cmd caller s s1 es e low got (validate_contiguous es) refl)
                    (λ x s1 got. unread x got)

  abbrev pub command_of : ReplayCall → Replay.Command
  command_of call = record { stream_id = call.stream_id; from_version = call.from_version }

  abbrev pub Answered : Context → ReplayCall → S → Answer → S → Type 0
  Answered ctx call s invalid_argument s' = (call.stream_id ≡ "") × (s' ≡ s)
  Answered ctx call s (event_stream id events) s' =
      (id ≡ call.stream_id)
      × (call.stream_id ≢ "")
      × ((es : List Event) × SendsAll es events
          × Replayed (call_context ctx call.correlation_ids) (command_of call) s (ok es) s')
  Answered ctx call s (data_loss e) s' =
      (call.stream_id ≢ "") × Refused (call_context ctx call.correlation_ids) (command_of call) s s'

  answer_lem :
      (ctx : Context) (call : ReplayCall) (s s' : S) (r : Result (List Event))
      → call.stream_id ≢ ""
      → Replayed (call_context ctx call.correlation_ids) (command_of call) s r s'
      → Answered ctx call s (replay_answer call.stream_id r) s'
  unfolding replay_answer
  answer_lem ctx call s s' (ok es) named h = (refl, named, (es, protos-SendsAll es, h))
  answer_lem ctx call s s' (err x) named h = (named, h)

  call_context-identity :
      (ctx : Context) (ids : List String)
      → identity_from_context (call_context ctx ids) ≡ identity_from_context ctx
  unfolding call_context
  call_context-identity ctx [] = refl
  call_context-identity ctx (v ∷ vs) = elim (Bool-cases (v == "")) [
    | inl empty ↦ rw empty
    | inr given ↦ rw given
  ]

  ends :
      (ctx : Context) (call : ReplayCall) (s : S)
      → let (a, s') = Grpc.replay store ctx call s in Answered ctx call s a s'
  unfolding Grpc.replay
  ends ctx call s = elim (Bool-cases (call.stream_id == "")) [
    | inl empty ↦ rw empty ((eq_iff call.stream_id "").0 empty, refl)
    | inr given ↦ rw given (
        answer_lem ctx call s _ _ (λ e. ground (arith, eq_iff call.stream_id ""))
          (replay_lem (call_context ctx call.correlation_ids) (command_of call) s))
  ]

  anonymous :
      (ctx : Context) (call : ReplayCall) (s : S)
      → tenant_of (identity_from_context ctx) ≡ none
      → call.stream_id ≢ ""
      → (e : Error) × (Grpc.replay store ctx call s ≡ (data_loss e, s))
  unfolding Grpc.replay Replay.replay replay_answer
  anonymous ctx call s unknown named =
      let given : (call.stream_id == "") ≡ false = ground (arith, eq_iff call.stream_id "") in
      let nobody : tenant_of (identity_from_context (call_context ctx call.correlation_ids))
          ≡ none =
        ap tenant_of (call_context-identity ctx call.correlation_ids) ∙ unknown in
      (text "unauthenticated: identity with tenant_id is required", rw (given, nobody) refl)

-- The replay call of the gRPC API ends in one of three ways. With InvalidArgument exactly for an
-- empty stream ID, and then nothing was read. With a stream of events: then the caller has a
-- tenant, the version asked for is not negative, and the messages hold, field by field and in
-- order, the events that the store gave for them, whose versions count up by one as 64-bit
-- integers. With DataLoss: then the context has no identity with a tenant or the version asked for
-- is negative, and nothing was read, or the store failed, or gave events whose versions do not
-- count up so. DataLoss is the only answer for a stream ID that is not empty when the context has
-- no identity with a tenant, whatever the store holds.
pub replay-Answered :
    {S : Type 0} (store : Store S) (ctx : Context) (call : ReplayCall) (s : S)
    → (let (a, s') = Grpc.replay store ctx call s in Answered store ctx call s a s')
      × (tenant_of (identity_from_context ctx) ≡ none
          → call.stream_id ≢ ""
          → (e : Error) × (Grpc.replay store ctx call s ≡ (data_loss e, s)))
replay-Answered store ctx call s = (ends store ctx call s, anonymous store ctx call s)
