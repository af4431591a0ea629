-- ===== src/Auth/Tokens.antt =====
-- A token that is issued is accepted (internal/infrastructure/auth/jwt/issuer.go,
-- authenticator.go).
use Prim.Native.String
use package.text.Mathlib.TextLemmas.{append_assoc}
use nocturne_atlas_event_str.Prelude.{
  String, ◌≡◌, ◌≢◌, refl, ap, ◌∙◌, true, none, some, ◌==◌, eq_iff, arith,
}
use nocturne_atlas_event_str.Prelude.Int.{pos, ltb_ℤ, int_add}
use nocturne_atlas_event_str.Prelude.Cutting.{lacks, cut_from-lacks}
use nocturne_atlas_event_str.Prelude.Text.{cut, cut_from}
use nocturne_atlas_event_str.Exec.{text, Result, ok, err, or_wrap, pure}
use nocturne_atlas_event_str.Exec.Rules.{after, after_ok, after_guard, or_wrap-eq-ok, or_wrap_ok}
use nocturne_atlas_event_str.Domain.{Time, Identity}
use nocturne_atlas_event_str.Auth.{
  Claims, IssueCommand, IssuedToken, JwtLibrary, equal_fold, bearer_token, identity_of, check_token,
  check_bearer, issue, add_duration, token_expiry,
}

-- The library gives back who a token was signed for, with the same secret, until the last second
-- before the token expires; expiry times are rounded down to seconds.
pub record JwtWorks {S : Type 0} (now : S → Time × S) (jwt : JwtLibrary S) : Type 0 where
  pub parse_signed :
      (secret token : String) (c : Claims) (s s1 s2 : S)
      → jwt.signed_string secret c s ≡ (ok token, s1)
      → ltb_ℤ (int_add (now s2).0 (pos 1000000)) c.expires_at ≡ true
      → (parsed : Claims) × ((jwt.parse_with_claims secret token s2).0 ≡ ok parsed)
        × (parsed.subject ≡ c.subject)
        × (parsed.tenant_id ≡ c.tenant_id)
        × (parsed.roles ≡ c.roles)

bearer_header :
    (token : String) → bearer_token (cut b' ' (String.◌++◌ "Bearer " token)) ≡ some token
unfolding bearer_token equal_fold lacks
bearer_header token = ap bearer_token (
    ap (cut b' ') (append_assoc "Bearer" " " token)
    ∙ cut_from-lacks b' ' " " "" "Bearer" token refl refl)

header_given : (token : String) → String.◌++◌ "Bearer " token ≢ ""
unfolding bearer_token cut_from
header_given token e =
    ground (arith, bearer_header token, ap (λ h. bearer_token (cut b' ' h)) e, empty_header)
  where
    empty_header : bearer_token (cut b' ' "") ≡ none
    empty_header = refl

module _ {S : Type 0} (now : S → Time × S) (jwt : JwtLibrary S) (secret : String) where
  -- The token was signed for claims that are the identity's.
  abbrev SignedFor : IssueCommand → Result IssuedToken → S → Type 0
  SignedFor cmd (ok t) s' =
      (c : Claims) × (a : S) × (b : S) × (jwt.signed_string secret c a ≡ (ok t.token, b))
      × (c.subject ≡ cmd.identity.subject_id)
      × (c.tenant_id ≡ cmd.identity.tenant_id)
      × (c.roles ≡ cmd.identity.roles)
      × (t.expires_at ≡ c.expires_at)
  SignedFor cmd (err _) s' = Unit

  issue_lem :
      (cmd : IssueCommand) (s : S) → let (r, s') = issue now jwt secret cmd s in SignedFor cmd r s'
  unfolding issue
  issue_lem cmd s =
      let s1 = (now s).1 in
      let s2 = (now s1).1 in
      let expires = add_duration (now s).0 (token_expiry cmd.expires_in) in
      let c : Claims = record {
        subject = cmd.identity.subject_id;
        expires_at = expires;
        issued_at = (now s1).0;
        tenant_id = cmd.identity.tenant_id;
        roles = cmd.identity.roles;
      } in
      let sign = jwt.signed_string secret c in
      after (SignedFor cmd) (or_wrap "sign token" sign)
        (λ token. pure (record { token = token; expires_at = expires })) s2
        (λ token s3 e. (c, s2, s3, or_wrap-eq-ok "sign token" sign s2 e, refl, refl, refl, refl))
        (λ x s3 e. tt)

  identity_of_ok :
      (c : Claims) (id : Identity) (s : S)
      → c.subject ≡ id.subject_id
      → c.tenant_id ≡ id.tenant_id
      → c.roles ≡ id.roles
      → id.subject_id ≢ ""
      → id.tenant_id ≢ ""
      → (identity_of now jwt c s).0 ≡ ok id
  unfolding identity_of
  identity_of_ok c id s a b r p q =
      rw (a, b, r) (ground (arith, eq_iff id.subject_id "", eq_iff id.tenant_id ""))

  check_bearer_ok :
      (token : String) (c : Claims) (id : Identity) (s : S)
      → (jwt.parse_with_claims secret token s).0 ≡ ok c
      → ((s1 : S) → (identity_of now jwt c s1).0 ≡ ok id)
      → (check_bearer now jwt secret (String.◌++◌ "Bearer " token) s).0 ≡ ok id
  unfolding check_bearer check_token
  check_bearer_ok token c id s parsed found =
      let header = String.◌++◌ "Bearer " token in
      after_guard (λ r s1. r ≡ ok id) (text "missing Authorization header")
        (check_token now jwt secret (bearer_token (cut b' ' header))) s (header == "")
        (λ e. absurd (header_given token ((eq_iff header "").0 e)))
        (λ _. rw (bearer_header token) (
          after_ok (λ r s1. r ≡ ok id)
            (or_wrap "invalid token" (jwt.parse_with_claims secret token)) (identity_of now jwt) s c
            _ (or_wrap_ok "invalid token" (jwt.parse_with_claims secret token) s parsed) (found _)))

-- With a JWT library that gives back what it signed, a token that `Issue` returns is accepted by
-- the authenticator with the same secret, as the bearer of the Authorization header, until the last
-- second before the expiry that `Issue` reports; and the identity is exactly the one that it was
-- issued for, if that has a subject and a tenant.
pub check_bearer-issue :
    {S : Type 0} (now : S → Time × S) (jwt : JwtLibrary S) (works : JwtWorks now jwt)
    (secret : String) (cmd : IssueCommand) (s s1 s2 : S) (t : IssuedToken)
    → cmd.identity.subject_id ≢ ""
    → cmd.identity.tenant_id ≢ ""
    → issue now jwt secret cmd s ≡ (ok t, s1)
    → ltb_ℤ (int_add (now s2).0 (pos 1000000)) t.expires_at ≡ true
    → (check_bearer now jwt secret (String.◌++◌ "Bearer " t.token) s2).0 ≡ ok cmd.identity
check_bearer-issue now jwt works secret cmd s s1 s2 t named homed issued early =
    let (c, a, b, signed, sub, home, roles, exp) = rw issued at (issue_lem now jwt secret cmd s) in
    let (p, parsed, sub1, home1, roles1) =
      works.parse_signed secret t.token c a b s2 signed (rw exp at early) in
    check_bearer_ok now jwt secret t.token p cmd.identity s2 parsed (λ s3.
      identity_of_ok now jwt secret p cmd.identity s3 (sub1 ∙ sub) (home1 ∙ home) (roles1 ∙ roles)
        named homed)
