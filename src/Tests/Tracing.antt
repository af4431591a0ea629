-- ===== src/Tests/Tracing.antt =====
-- The theorem on the trace of a request at a concrete input.
use nocturne_atlas_event_str.Prelude.{
  ℕ, zero, suc, ◌≡◌, refl, ap, true, List, [], ◌∷◌, ◌==◌, length, if◌then◌else◌,
}
use nocturne_atlas_event_str.Domain.{background}
use nocturne_atlas_event_str.Trace.{is_hex, all_hex, is_hex_digit}
use nocturne_atlas_event_str.Trace.Ids.{new_trace_id, new_span_id, hex_encode, digit}
use nocturne_atlas_event_str.Http.Messages.{HttpRequest, Handler, write_json, health_body}
use nocturne_atlas_event_str.Http.Middleware.{trace_context}
use nocturne_atlas_event_str.Http.Traced.{Answered, trace_context-Answered}

-- Bytes that are always the same.
abbrev pub filled : ℕ → List ℕ
filled zero = []
filled (suc n) = 171 ∷ filled n

length-filled : (n : ℕ) → length (filled n) ≡ n
length-filled zero = refl
length-filled (suc n) = ap suc (length-filled n)

abbrev read_bytes : ℕ → Unit {0} → List ℕ × Unit {0}
read_bytes n s = (filled n, s)

two_bytes : hex_encode (filled 2) ≡ "abab"
unfolding hex_encode digit
two_bytes = refl

-- A request with a legacy trace ID only.
abbrev legacy_request : HttpRequest
legacy_request = record {
  header = λ name. if name == "X-Trace-ID" then "4bf92f3577b34da6a3ce929d0e0e4736" else "";
  query = λ name. "";
  param = "";
  request_id = "req-2";
  body = "";
}

abbrev healthy : Handler (Unit {0})
healthy r ctx s = (write_json 200 [] health_body, s)

legacy_is_hex : is_hex (legacy_request.header "X-Trace-ID") ≡ true
unfolding is_hex all_hex is_hex_digit
legacy_is_hex = refl

trace_context-Answered_example :
    let (resp, s') =
      trace_context
        (new_trace_id read_bytes)
        (new_span_id read_bytes)
        healthy
        legacy_request
        background
        tt in
    Answered read_bytes healthy legacy_request background tt resp s'
trace_context-Answered_example =
    trace_context-Answered read_bytes (λ n s. length-filled n) healthy legacy_request background tt
      (λ long. legacy_is_hex)
