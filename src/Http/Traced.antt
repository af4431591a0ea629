-- ===== src/Http/Traced.antt =====
-- The trace of a request (internal/infrastructure/httpserver/middleware/trace.go, with the IDs of
-- internal/pkg/trace/trace.go), from the incoming headers to the outgoing one.
use Prim.Native.String
use nocturne_atlas_event_str.Prelude.{
  ℕ, String, ◌≡◌, refl, ap, ◌⊎◌, inl, inr, true, false, not, Option, none, some, List, [], ◌∷◌,
  ◌==◌, eq_iff, ◌&&◌, eqb, length, arith, Bool-cases,
}
use nocturne_atlas_event_str.Domain.{TraceContext, no_trace, Context, with_trace_context}
use nocturne_atlas_event_str.Trace.{is_valid, is_hex, traceparent, parse_parts, parse_traceparent}
use nocturne_atlas_event_str.Trace.RoundTrip.{parse_traceparent-traceparent}
use nocturne_atlas_event_str.Trace.Ids.{hex_encode, new_trace_id, new_span_id, encoded_is_hex}
use nocturne_atlas_event_str.Http.Messages.{HttpRequest, Response, Handler}
use nocturne_atlas_event_str.Http.Middleware.{
  root_trace, upstream_trace, resolve_trace, trace_context,
}

abbrev IsTraceId : String → Type 0
IsTraceId id = (String.len id ≡ 32) × (is_hex id ≡ true)

-- A header that is parsed has hexadecimal IDs.
parse_parts_lem :
    (parts : List String) (tc : TraceContext) → parse_parts parts ≡ some tc → IsTraceId tc.trace_id
unfolding parse_parts
parse_parts_lem (version ∷ id ∷ span ∷ flag ∷ []) tc h =
    let same : id ≡ tc.trace_id = ground arith in
    let ids : IsTraceId id = (ground arith, ground arith) in rw same at ids
parse_parts_lem [] tc h = ground arith
parse_parts_lem (a ∷ []) tc h = ground arith
parse_parts_lem (a ∷ b ∷ []) tc h = ground arith
parse_parts_lem (a ∷ b ∷ c ∷ []) tc h = ground arith
parse_parts_lem (a ∷ b ∷ c ∷ d ∷ e ∷ rest) tc h = ground arith

parse_traceparent_lem :
    (header : String) (tc : TraceContext)
    → parse_traceparent header ≡ some tc
    → IsTraceId tc.trace_id
unfolding parse_traceparent
parse_traceparent_lem header tc h = parse_parts_lem _ tc h

-- What the header says is a parsed trace or nothing.
upstream_lem :
    (header : String)
    → (parse_traceparent header ≡ some (upstream_trace header)) ⊎ (upstream_trace header ≡ no_trace)
unfolding upstream_trace
upstream_lem header = elim (Bool-cases (header == "")) [
  | inl empty ↦ inr (rw empty refl)
  | inr given ↦ go given (parse_traceparent header) refl
]
  where
    go :
        (header == "") ≡ false
        → (o : Option TraceContext) → parse_traceparent header ≡ o
        → (parse_traceparent header ≡ some (upstream_trace header))
          ⊎ (upstream_trace header ≡ no_trace)
    go given none e = inr (rw (given, e) refl)
    go given (some tc) e = inl (rw (given, e) refl)

given_lem : (t : String) → String.len t ≡ 32 → (t == "") ≡ false
given_lem t h = elim (Bool-cases (t == "")) [
  | inl empty ↦ let e : String.len t ≡ 0 = ap String.len ((eq_iff t "").0 empty) in ground arith
  | inr given ↦ given
]

module _ {S : Type 0} (read : ℕ → S → List ℕ × S) where
  -- Where the trace of a request comes from: the traceparent header if it is well-formed, else the
  -- X-Trace-ID header if it has 32 bytes, else the random bytes that are read.
  pub data Origin (r : HttpRequest) (s : S) : TraceContext → Type 0 where
    upstream :
        {tc : TraceContext} → parse_traceparent (r.header "traceparent") ≡ some tc → Origin r s tc
    legacy :
        upstream_trace (r.header "traceparent") ≡ no_trace
        → String.len (r.header "X-Trace-ID") ≡ 32
        → Origin r s (root_trace (r.header "X-Trace-ID"))
    fresh :
        upstream_trace (r.header "traceparent") ≡ no_trace
        → eqb (String.len (r.header "X-Trace-ID")) 32 ≡ false
        → Origin r s (root_trace (new_trace_id read s).0)

  -- The response that the handler gives in the context of a trace, with the two headers; the span
  -- ID is read after the trace.
  unfoldable pub Answered : Handler S → HttpRequest → Context → S → Response → S → Type 0
  Answered next r ctx s resp s' =
      (tc : TraceContext) × (s1 : S) × (header : String) × Origin r s tc
      × (let (span_id, s2) = new_span_id read s1 in
          let (inner, s3) = next r (with_trace_context ctx tc) s2 in
          (parse_traceparent header
            ≡ some
                (record { trace_id = tc.trace_id; parent_span_id = span_id; sampled = tc.sampled }))
          × (String.len span_id ≡ 16)
          × (resp ≡ record inner {
            headers = ("traceparent", header) ∷ ("X-Trace-ID", tc.trace_id) ∷ inner.headers;
          })
          × (s' ≡ s3))

module _ {S : Type 0} (read : ℕ → S → List ℕ × S)
    (fills : (n : ℕ) (s : S) → length (read n s).0 ≡ n) where
  -- The trace is one of the three, and its ID is hexadecimal.
  resolve_trace_lem :
      (r : HttpRequest) (s : S)
      → (String.len (r.header "X-Trace-ID") ≡ 32 → is_hex (r.header "X-Trace-ID") ≡ true)
      → let (tc, s') = resolve_trace (new_trace_id read) (new_span_id read) r s in
        Origin read r s tc × IsTraceId tc.trace_id
  unfolding resolve_trace is_valid new_trace_id
  resolve_trace_lem r s plain = elim (upstream_lem (r.header "traceparent")) [
    | inl parsed ↦
        let ids = parse_traceparent_lem _ _ parsed in
        let valid : eqb (String.len (upstream_trace (r.header "traceparent")).trace_id) 32 ≡ true =
          ground (arith, ids.0) in
        rw valid (upstream parsed, ids)
    | inr absent ↦ elim (Bool-cases (eqb (String.len (r.header "X-Trace-ID")) 32)) [
      | inl long ↦
          let is_32 : String.len (r.header "X-Trace-ID") ≡ 32 = ground arith in
          let given : (r.header "X-Trace-ID" == "") ≡ false =
            given_lem (r.header "X-Trace-ID") is_32 in
          rw (absent, given, long) (legacy absent is_32, (is_32, plain is_32))
      | inr short ↦
          let bytes = (read 16 s).0 in
          let no : (not (r.header "X-Trace-ID" == "") && false) ≡ false = ground arith in
          rw (absent, short, no) (fresh absent short, encoded_is_hex 16 bytes (fills 16 s))
    ]
  ]

-- With a source of random bytes that fills its buffers, and a request whose X-Trace-ID, if it has 32
-- bytes, is hexadecimal: the middleware calls the handler with the trace of the traceparent header,
-- else that of X-Trace-ID, else a fresh one, and gives back the handler's response with this trace
-- ID and a traceparent header that is parsed to the same trace, with the flag as it was and a fresh
-- span of 16 digits as the parent.
pub trace_context-Answered :
    {S : Type 0} (read : ℕ → S → List ℕ × S) (fills : (n : ℕ) (s : S) → length (read n s).0 ≡ n)
    (next : Handler S) (r : HttpRequest) (ctx : Context) (s : S)
    → (String.len (r.header "X-Trace-ID") ≡ 32 → is_hex (r.header "X-Trace-ID") ≡ true)
    → let (resp, s') = trace_context (new_trace_id read) (new_span_id read) next r ctx s in
      Answered read next r ctx s resp s'
unfolding trace_context new_span_id Answered
trace_context-Answered read fills next r ctx s plain =
    let resolved = resolve_trace (new_trace_id read) (new_span_id read) r s in
    let tc = resolved.0 in
    let s1 = resolved.1 in
    let (origin, (long, hex)) = resolve_trace_lem read fills r s plain in
    let (span_long, span_hex) = encoded_is_hex 8 (read 8 s1).0 (fills 8 s1) in
    let span_id = hex_encode (read 8 s1).0 in
    (
      tc,
      s1,
      traceparent tc span_id,
      origin,
      (parse_traceparent-traceparent tc span_id long hex span_long span_hex, span_long, refl, refl),
    )
