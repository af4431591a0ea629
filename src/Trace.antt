-- ===== src/Trace.antt =====
-- internal/pkg/trace/trace.go: the W3C traceparent header. The values in the request context are in
-- Domain.Contexts.
pub mod RoundTrip
pub mod Ids
use Prim.Native.Char.{code}
use Prim.Native.String
use nocturne_atlas_event_str.Prelude.{
  ℕ, ◌%◌, String, Bool, true, false, not, Option, none, some, List, [], ◌∷◌, ◌&&◌, ◌||◌, ◌==◌, leb,
  eqb, if◌then◌else◌,
}
use nocturne_atlas_event_str.Prelude.Text.{split}
use nocturne_atlas_event_str.Domain.{TraceContext, no_trace}

-- `Valid`
unfoldable pub is_valid : TraceContext → Bool
is_valid tc = eqb (String.len tc.trace_id) 32

-- `Traceparent`
unfoldable pub traceparent : TraceContext → String → String
traceparent tc span_id =
    let flags : String = if tc.sampled then "01" else "00" in
    String.◌++◌ "00-"
      (String.◌++◌ tc.trace_id (String.◌++◌ "-" (String.◌++◌ span_id (String.◌++◌ "-" flags))))

unfoldable pub is_hex_digit : ℕ → Bool
is_hex_digit c = leb b'0' c && leb c b'9' || leb b'a' c && leb c b'f' || leb b'A' c && leb c b'F'

unfoldable pub all_hex : String → Bool
all_hex String.[] = true
all_hex (String.◌∷◌ c s) = is_hex_digit (code c) && all_hex s

-- `isHex`: what `hex.DecodeString` accepts, hexadecimal digits of either case, an even number.
unfoldable pub is_hex : String → Bool
is_hex s = all_hex s && eqb (String.len s % 2) 0

-- `ParseTraceparent`, on the parts between the dashes; `none` for `false`.
unfoldable pub parse_parts : List String → Option TraceContext
parse_parts (version ∷ trace_id ∷ parent_span_id ∷ flag_hex ∷ []) =
    if not (version == "00")
    then none
    else if not (eqb (String.len trace_id) 32) || not (is_hex trace_id)
    then none
    else if not (eqb (String.len parent_span_id) 16) || not (is_hex parent_span_id)
    then none
    else if not (eqb (String.len flag_hex) 2)
    then none
    else some (record {
      trace_id = trace_id;
      parent_span_id = parent_span_id;
      sampled = flag_hex == "01";
    })
parse_parts _ = none

unfoldable pub parse_traceparent : String → Option TraceContext
parse_traceparent tp = parse_parts (split b'-' tp)
