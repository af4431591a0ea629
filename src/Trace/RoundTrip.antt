-- ===== src/Trace/RoundTrip.antt =====
-- Formatting and parsing a traceparent header (internal/pkg/trace/trace.go) agree.
use Prim.Native.String
use mathlib.Core.Path.{ap₂}
use text.Mathlib.TextLemmas.{nil-append, append_assoc}
use nocturne_atlas_event_str.Prelude.{
  String, ◌≡◌, refl, ap, ◌∙◌, Bool, true, false, some, List, ◌∷◌, if◌then◌else◌, arith,
}
use nocturne_atlas_event_str.Prelude.Cutting.{lacks, split_from-lacks}
use nocturne_atlas_event_str.Prelude.Text.{split_from, split}
use nocturne_atlas_event_str.Domain.{TraceContext}
use nocturne_atlas_event_str.Trace.{
  traceparent, is_hex_digit, all_hex, is_hex, parse_parts, parse_traceparent,
}

all_hex-lacks : (s : String) → all_hex s ≡ true → lacks b'-' s ≡ true
unfolding lacks all_hex is_hex_digit
all_hex-lacks String.[] h = refl
all_hex-lacks (String.◌∷◌ c s) h = ground (arith, all_hex-lacks s)

-- A part without a dash is closed by the dash behind it.
split_from-all_hex :
    (cur s rest : String)
    → all_hex s ≡ true
    → split_from b'-' cur (String.◌++◌ s (String.◌++◌ "-" rest))
      ≡ String.◌++◌ cur s ∷ split_from b'-' "" rest
split_from-all_hex cur s rest h = split_from-lacks b'-' "-" cur s rest refl (all_hex-lacks s h)

-- The parts of a header.
split-parts :
    (trace_id span_id flags : String)
    → all_hex trace_id ≡ true
    → all_hex span_id ≡ true
    → split b'-' (
        String.◌++◌ "00-"
          (String.◌++◌ trace_id (String.◌++◌ "-" (String.◌++◌ span_id (String.◌++◌ "-" flags)))))
      ≡ "00" ∷ trace_id ∷ span_id ∷ split b'-' flags
unfolding all_hex is_hex_digit
split-parts trace_id span_id flags h k =
    let tail = String.◌++◌ span_id (String.◌++◌ "-" flags) in
    let body = String.◌++◌ trace_id (String.◌++◌ "-" tail) in
    ap (split b'-') (append_assoc "00" "-" body)
    ∙ split_from-all_hex "" "00" body refl
    ∙ ap (λ (l : List String). "00" ∷ l)
        (split_from-all_hex "" trace_id tail h
          ∙ ap₂ ◌∷◌ (nil-append trace_id) (
              split_from-all_hex "" span_id flags k
              ∙ ap (λ (x : String). x ∷ split b'-' flags) (nil-append span_id)))

parse_parts-flags :
    (trace_id span_id : String) (sampled : Bool)
    → String.len trace_id ≡ 32
    → is_hex trace_id ≡ true
    → String.len span_id ≡ 16
    → is_hex span_id ≡ true
    → parse_parts ("00" ∷ trace_id ∷ span_id ∷ split b'-' (if sampled then "01" else "00"))
      ≡ some (record { trace_id = trace_id; parent_span_id = span_id; sampled = sampled })
unfolding parse_parts split_from
parse_parts-flags trace_id span_id true l h m k = rw (l, h, m, k)
parse_parts-flags trace_id span_id false l h m k = rw (l, h, m, k)

-- What `isHex` accepts has hexadecimal digits only.
is_hex-all_hex : (s : String) → is_hex s ≡ true → all_hex s ≡ true
unfolding is_hex
is_hex-all_hex s h = ground arith

-- The header that is written for a trace ID and a span ID, 32 and 16 hexadecimal digits, is parsed
-- as that trace ID, with the span as its parent and the flag as it was.
pub parse_traceparent-traceparent :
    (tc : TraceContext) (span_id : String)
    → String.len tc.trace_id ≡ 32
    → is_hex tc.trace_id ≡ true
    → String.len span_id ≡ 16
    → is_hex span_id ≡ true
    → parse_traceparent (traceparent tc span_id)
      ≡ some (record { trace_id = tc.trace_id; parent_span_id = span_id; sampled = tc.sampled })
unfolding parse_traceparent traceparent
parse_traceparent-traceparent tc span_id l h m k =
    ap parse_parts (
      split-parts tc.trace_id span_id (if tc.sampled then "01" else "00")
        (is_hex-all_hex tc.trace_id h) (is_hex-all_hex span_id k))
    ∙ parse_parts-flags tc.trace_id span_id tc.sampled l h m k
