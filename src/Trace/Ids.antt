-- ===== src/Trace/Ids.antt =====
-- `NewTraceID` and `NewSpanID` of internal/pkg/trace/trace.go: random bytes in hexadecimal. What
-- `rand.Read` fills a buffer with is a parameter; it never fails (crypto/rand of Go 1.24).
use Prim.Native.Char.{Char, code, len_utf8}
use Prim.Native.String
use Prim.Native.String.len
use nocturne_atlas_event_str.Prelude.{
  ℕ, zero, suc, ◌+◌, ◌*◌, ◌/◌, ◌%◌, String, ◌≡◌, refl, ap, ◌∙◌, Bool, true, List, [], ◌∷◌, ◌&&◌,
  eqb, length, arith,
}
use nocturne_atlas_event_str.Trace.{is_hex_digit, all_hex, is_hex}

-- The character at an index of a text, its default past the end.
abbrev pub nth : Char → String → ℕ → Char
nth d String.[] n = d
nth d (String.◌∷◌ c s) zero = c
nth d (String.◌∷◌ c s) (suc n) = nth d s n

-- `hextable` of encoding/hex.
unfoldable pub digit : ℕ → Char
digit n = nth "0" "0123456789abcdef" n

-- `hex.EncodeToString`
unfoldable pub hex_encode : List ℕ → String
hex_encode [] = ""
hex_encode (b ∷ bytes) =
    String.◌∷◌ (digit (b / 16)) (String.◌∷◌ (digit (b % 16)) (hex_encode bytes))

module _ {S : Type 0} (read : ℕ → S → List ℕ × S) where
  unfoldable pub new_trace_id : S → String × S
  new_trace_id s = let (bytes, s') = read 16 s in (hex_encode bytes, s')

  unfoldable pub new_span_id : S → String × S
  new_span_id s = let (bytes, s') = read 8 s in (hex_encode bytes, s')

abbrev is_plain : Char → Bool
is_plain c = is_hex_digit (code c) && eqb (len_utf8 c) 1

abbrev all_plain : String → Bool
all_plain String.[] = true
all_plain (String.◌∷◌ c s) = is_plain c && all_plain s

nth-is_plain :
    (d : Char) (s : String) (n : ℕ)
    → is_plain d ≡ true
    → all_plain s ≡ true
    → is_plain (nth d s n) ≡ true
nth-is_plain d String.[] n h k = h
nth-is_plain d (String.◌∷◌ c s) zero h k = ground arith
nth-is_plain d (String.◌∷◌ c s) (suc n) h k = nth-is_plain d s n h (ground arith)

digit-is_plain : (n : ℕ) → is_plain (digit n) ≡ true
unfolding digit is_hex_digit
digit-is_plain n = nth-is_plain "0" "0123456789abcdef" n refl refl

-- So many bytes are written as twice as many hexadecimal digits.
pub hex_encode_lem :
    (bytes : List ℕ)
    → (String.len (hex_encode bytes) ≡ 2 * length bytes) × (all_hex (hex_encode bytes) ≡ true)
unfolding hex_encode all_hex
hex_encode_lem [] = (refl, refl)
hex_encode_lem (b ∷ bytes) =
    let (long, hex) = hex_encode_lem bytes in
    let high = digit-is_plain (b / 16) in
    let low = digit-is_plain (b % 16) in
    let d = digit (b / 16) in
    let e = digit (b % 16) in
    let s = hex_encode bytes in
    (
      (λ i. len.cons d (String.◌∷◌ e s) i)
          ∙ ap (λ n. len_utf8 d + n) (λ i. len.cons e s i)
          ∙ ground arith,
      ground arith,
    )

-- The IDs are hexadecimal, of the lengths that a traceparent header asks for, when the buffers are
-- filled.
pub encoded_is_hex :
    (n : ℕ) (bytes : List ℕ)
    → length bytes ≡ n
    → (String.len (hex_encode bytes) ≡ 2 * n) × (is_hex (hex_encode bytes) ≡ true)
unfolding is_hex
encoded_is_hex n bytes filled =
    let (long, hex) = hex_encode_lem bytes in (rw filled at long, ground arith)
