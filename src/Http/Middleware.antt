-- ===== src/Http/Middleware.antt =====
-- internal/infrastructure/httpserver/middleware: authentication and the trace context.
use Prim.Native.String
use nocturne_atlas_event_str.Prelude.{
  String, true, not, none, some, [], ◌∷◌, ◌==◌, ◌&&◌, eqb, if◌then◌else◌,
}
use nocturne_atlas_event_str.Exec.{Result, ok, err}
use nocturne_atlas_event_str.Domain.{
  Identity, TraceContext, no_trace, Context, with_identity, with_trace_context,
}
use nocturne_atlas_event_str.Trace.{is_valid, traceparent, parse_traceparent}
use nocturne_atlas_event_str.Auth.{Authenticator}
use nocturne_atlas_event_str.Http.Messages.{HttpRequest, Response, Handler, write_error}

-- `Auth`: what follows on the authenticator's answer.
unfoldable pub after_authenticate :
    {S : Type 0} → Handler S → HttpRequest → Context → Result Identity → S → Response × S
after_authenticate next r ctx (ok identity) s = next r (with_identity ctx identity) s
after_authenticate next r ctx (err _) s = (write_error 401 [] "unauthorized", s)

unfoldable pub auth : {S : Type 0} → Authenticator S → Handler S → Handler S
auth authenticator next r ctx s =
    let (answer, s') = authenticator.authenticate r.header s in
    after_authenticate next r ctx answer s'

-- What the traceparent header says; the zero value where it says nothing.
unfoldable pub upstream_trace : String → TraceContext
upstream_trace header =
    if header == ""
    then no_trace
    else elim (parse_traceparent header) [ none ↦ no_trace | some tc ↦ tc ]

abbrev pub root_trace : String → TraceContext
root_trace id = record { trace_id = id; parent_span_id = ""; sampled = true }

module _ {S : Type 0} (new_trace_id new_span_id : S → String × S) where
  -- The three sources of the trace, in their order; both IDs are read from the system's random
  -- numbers.
  unfoldable pub resolve_trace : HttpRequest → S → TraceContext × S
  resolve_trace r s =
      let tc = upstream_trace (r.header "traceparent") in
      let given = r.header "X-Trace-ID" in
      let (fresh, s') = new_trace_id s in
      if is_valid tc
      then (tc, s)
      else if not (given == "") && eqb (String.len given) 32
      then (root_trace given, s)
      else (root_trace fresh, s')

  -- `TraceContext`
  unfoldable pub trace_context : Handler S → Handler S
  trace_context next r ctx s =
      let (tc, s1) = resolve_trace r s in
      let (span_id, s2) = new_span_id s1 in
      let (response, s3) = next r (with_trace_context ctx tc) s2 in
      (
        record response {
          headers =
              ("traceparent", traceparent tc span_id)
              ∷ ("X-Trace-ID", tc.trace_id)
              ∷ response.headers;
        },
        s3,
      )
