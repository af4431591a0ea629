-- ===== src/Tests/Jwt.antt =====
-- A JWT library for the examples: a token spells out its claims, and is not secured at all.
use Prim.Native.Char.{code}
use Prim.Native.String
use mathlib.Core.Path.{Path, ap₂}
use package.text.Mathlib.TextLemmas.{nil-append, cons-append, append-nil, append_assoc}
use nocturne_atlas_event_str.Prelude.{
  String, ◌≡◌, refl, ap, ◌∙◌, Bool, true, false, List, [], ◌∷◌, eqb, if◌then◌else◌,
}
use nocturne_atlas_event_str.Prelude.Int.{pos}
use nocturne_atlas_event_str.Prelude.Text.{push}
use nocturne_atlas_event_str.Exec.{Result, ok, err, Error}
use nocturne_atlas_event_str.Postgres.{Db}
use nocturne_atlas_event_str.Auth.{Claims, JwtLibrary}
use nocturne_atlas_event_str.Auth.Tokens.{JwtWorks}
use nocturne_atlas_event_str.Tests.World.{world}

-- Each character behind an x, an n at the end.
unfoldable pub spell : String → String
spell String.[] = "n"
spell (String.◌∷◌ c s) = String.◌++◌ "x" (String.◌∷◌ c (spell s))

unfoldable pub spell_all : List String → String
spell_all [] = ""
spell_all (s ∷ ss) = String.◌++◌ (spell s) (spell_all ss)

unfoldable pub read : Bool → String → String → List String
read escaped cur String.[] = []
read true cur (String.◌∷◌ c s) = read false (push cur c) s
read false cur (String.◌∷◌ c s) =
    let closed = cur ∷ read false "" s in
    let going = read true cur s in if eqb (code c) b'n' then closed else going

read-escape : (cur t : String) → read false cur (String.◌++◌ "x" t) ≡ read true cur t
unfolding read
read-escape cur t = rw (cons-append, nil-append)

read-spell :
    (cur s rest : String)
    → read false cur (String.◌++◌ (spell s) rest) ≡ String.◌++◌ cur s ∷ read false "" rest
unfolding read spell
read-spell cur String.[] rest = rw (cons-append, nil-append, append-nil)
read-spell cur (String.◌∷◌ c s) rest =
    ap (read false cur) (
      append_assoc "x" (String.◌∷◌ c (spell s)) rest
      ∙ ap (λ (t : String). String.◌++◌ "x" t) (cons-append c (spell s) rest))
    ∙ read-escape cur (String.◌∷◌ c (String.◌++◌ (spell s) rest))
    ∙ read-spell (push cur c) s rest
    ∙ ap (λ (t : String). t ∷ read false "" rest)
        (append_assoc cur (String.◌∷◌ c String.[]) s
          ∙ ap (λ (t : String). String.◌++◌ cur t)
              (cons-append c String.[] s ∙ ap (λ (t : String). String.◌∷◌ c t) (nil-append s)))

read-spell_all : (ss : List String) → read false "" (spell_all ss) ≡ ss
unfolding spell_all read
read-spell_all [] = refl
read-spell_all (s ∷ ss) =
    read-spell "" s (spell_all ss) ∙ ap₂ ◌∷◌ (nil-append s) (read-spell_all ss)

abbrev pub claims_from : List String → Result Claims
claims_from (subject ∷ tenant_id ∷ roles) = ok (record {
  subject = subject;
  expires_at = pos 0;
  issued_at = pos 0;
  tenant_id = tenant_id;
  roles = roles;
})
claims_from (subject ∷ []) = err (Error.text "malformed")
claims_from [] = err (Error.text "malformed")

abbrev pub open_jwt : JwtLibrary Db
open_jwt = record {
  signed_string = λ secret c db. (ok (spell_all (c.subject ∷ c.tenant_id ∷ c.roles)), db);
  parse_with_claims = λ secret token db. (claims_from (read false "" token), db);
}

spelled : {a b : String} {s t : Db} → Path (Result String × Db) (ok a, s) (ok b, t) → b ≡ a
spelled e = cc

pub open_jwt-JwtWorks : JwtWorks world.now open_jwt
open_jwt-JwtWorks = record {
  parse_signed = λ secret token c s s1 s2 signed early.
      let same : token ≡ spell_all (c.subject ∷ c.tenant_id ∷ c.roles) = spelled signed in
      (
        record {
          subject = c.subject;
          expires_at = pos 0;
          issued_at = pos 0;
          tenant_id = c.tenant_id;
          roles = c.roles;
        },
        rw (same, read-spell_all (c.subject ∷ c.tenant_id ∷ c.roles)) refl,
        refl,
        refl,
        refl,
      );
}
