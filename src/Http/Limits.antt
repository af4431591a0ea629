-- ===== src/Http/Limits.antt =====
-- What `io.LimitReader` lets through of a body that internal/infrastructure/httpserver/handler.go
-- reads.
use Prim.Native.Char.{Char, len_utf8}
use Prim.Native.String
use text.Mathlib.TextLemmas.{nil-append, cons-append}
use nocturne_atlas_event_str.Prelude.{
  ℕ, ◌+◌, ◌-◌, ◌≤◌, ◌<◌, String, ◌≡◌, refl, sym, ap, ◌∙◌, ◌⊎◌, inl, inr, leb, Bool-cases, arith,
}
use nocturne_atlas_event_str.Http.Messages.{limit_reader}

-- The length in UTF-8.
abbrev pub bytes : String → ℕ
bytes String.[] = 0
bytes (String.◌∷◌ c s) = len_utf8 c + bytes s

-- The longest initial part of a text that has at most so many bytes.
pub record LongestWithin (limit : ℕ) (s part : String) : Type 0 where
  pub rest : String
  pub initial : s ≡ String.◌++◌ part rest
  pub small : bytes part ≤ limit
  pub longest :
      (rest ≡ "")
      ⊎ ((c : Char) × (more : String) × (rest ≡ String.◌∷◌ c more)
          × (limit < bytes part + len_utf8 c))

pub limit_reader-LongestWithin :
    (limit : ℕ) (s : String) → LongestWithin limit s (limit_reader limit s)
unfolding limit_reader
limit_reader-LongestWithin limit String.[] = record {
  rest = "";
  initial = sym (nil-append "");
  small = omega arith;
  longest = inl refl;
}
limit_reader-LongestWithin limit (String.◌∷◌ c s) = elim (Bool-cases (leb (len_utf8 c) limit)) [
  | inl fits ↦ rw fits (
      let later = limit_reader-LongestWithin (limit - len_utf8 c) s in
      record {
        rest = later.rest;
        initial = ap (λ t. String.◌∷◌ c t) later.initial ∙ sym (cons-append c _ later.rest);
        small = ground (arith, later.small);
        longest = elim later.longest [
          | inl whole ↦ inl whole
          | inr (d, more, e, wide) ↦ inr (d, more, e, ground arith)
        ];
      })
  | inr over ↦ rw over (record {
    rest = String.◌∷◌ c s;
    initial = sym (nil-append (String.◌∷◌ c s));
    small = omega arith;
    longest = inr (c, s, refl, ground arith);
  })
]
