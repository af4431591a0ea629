-- ===== src/Http/Credentials.antt =====
-- The handlers of internal/infrastructure/httpserver/handler.go that deal with credentials:
-- `authToken`, `authIssue` and `createTenant`. Log lines are not modelled.
use nocturne_atlas_event_str.Prelude.{
  String, not, Option, none, some, List, [], ◌∷◌, ◌==◌, ◌||◌, if◌then◌else◌,
}
use nocturne_atlas_event_str.Prelude.Int.{ℤ, pos, leb_ℤ, ltb_ℤ, int64_mul}
use nocturne_atlas_event_str.Exec.{Result, ok, err}
use nocturne_atlas_event_str.Domain.{Identity, identity_from_context}
use nocturne_atlas_event_str.Auth.{Authenticator, Issuer, IssuedToken, Duration, default_roles}
use nocturne_atlas_event_str.Http.Messages.{
  CreateTenantRequest, Response, Handler, Parsers, write_json, write_error, token_body,
  issued_token_body, credentials_body,
}

-- `time.Duration(n) * time.Second`, which wraps.
abbrev pub seconds : ℤ → Duration
seconds n = int64_mul n (pos 1000000000)

-- A lifetime that is asked for in seconds, with a default and a maximum.
unfoldable pub lifetime : Duration → Duration → ℤ → Duration
lifetime default max n =
    let d = seconds n in
    let given = if leb_ℤ d (pos 0) then default else d in if ltb_ℤ max given then max else given

-- The lifetimes of `authIssue` (an hour, a day at most) and `createTenant` (a day, 30 days at
-- most).
abbrev pub issue_lifetime : ℤ → Duration
issue_lifetime = lifetime (pos 3600000000000) (pos 86400000000000)

abbrev pub tenant_lifetime : ℤ → Duration
tenant_lifetime = lifetime (pos 86400000000000) (pos 2592000000000000)

abbrev pub roles_or_default : List String → List String
roles_or_default [] = default_roles
roles_or_default (role ∷ roles) = role ∷ roles

unfoldable pub token_answer : Result Identity → Response
token_answer (ok identity) = write_json 200 [] (token_body identity)
token_answer (err _) = write_error 401 [] "unauthorized"

unfoldable pub issue_answer : Identity → Result IssuedToken → Response
issue_answer identity (ok t) = write_json 200 [] (issued_token_body t.token t.expires_at identity)
issue_answer identity (err _) = write_error 500 [] "failed to issue token"

unfoldable pub tenant_answer : CreateTenantRequest → Result IssuedToken → Response
tenant_answer req (ok t) = write_json 201 [] (
    credentials_body (record {
      tenant_id = req.tenant_id;
      subject_id = req.subject_id;
      mode = "jwt";
      token = t.token;
      expires_at = some t.expires_at;
    }))
tenant_answer req (err _) = write_error 500 [] "failed to issue token"

-- `authToken`
unfoldable pub auth_token : {S : Type 0} → Authenticator S → Handler S
auth_token authenticator r ctx s =
    let (answer, s') = authenticator.authenticate r.header s in (token_answer answer, s')

module _ {S : Type 0} (parsers : Parsers) where
  unfoldable pub issue_for : Issuer S → Option Identity → Handler S
  issue_for issuer none r ctx s = (write_error 401 [] "unauthorized", s)
  issue_for issuer (some identity) r ctx s =
      let (answer, s') =
        issuer.issue
          (record {
            identity = identity;
            expires_in = issue_lifetime (parsers.issue_expires_in r.body);
          })
          s in
      (issue_answer identity answer, s')

  -- `authIssue`; a body that cannot be decoded asks for 0 seconds.
  unfoldable pub auth_issue : Option (Issuer S) → Handler S
  auth_issue none r ctx s =
      (write_error 501 [] "token issuance is not configured — set AUTH_JWT_SECRET on the server", s)
  auth_issue (some issuer) r ctx s = issue_for issuer (identity_from_context ctx) r ctx s

  -- The end of `createTenant`, with an issuer and without.
  unfoldable pub provision : Option (Issuer S) → CreateTenantRequest → S → Response × S
  provision none req s = (
    write_json 201 [] (
        credentials_body (record {
          tenant_id = "default";
          subject_id = req.subject_id;
          mode = "simple";
          token = "";
          expires_at = none;
        })),
    s,
  )
  provision (some issuer) req s =
      let (answer, s') =
        issuer.issue
          (record {
            identity = record {
              subject_id = req.subject_id;
              tenant_id = req.tenant_id;
              roles = roles_or_default req.roles;
            };
            expires_in = tenant_lifetime req.expires_in;
          })
          s in
      (tenant_answer req answer, s')

  unfoldable pub create_decoded : Option (Issuer S) → Option CreateTenantRequest → S → Response × S
  create_decoded issuer none s = (write_error 400 [] "invalid request body", s)
  create_decoded issuer (some req) s =
      let answer = provision issuer req s in
      if req.tenant_id == "" || req.subject_id == ""
      then (write_error 400 [] "tenant_id and subject_id are required", s)
      else answer

  -- `createTenant`; `subtle.ConstantTimeCompare` compares whole texts.
  unfoldable pub create_tenant : String → Option (Issuer S) → Handler S
  create_tenant admin_key issuer r ctx s =
      let answer = create_decoded issuer (parsers.tenant_request r.body) s in
      if not (r.header "X-Admin-Key" == admin_key)
      then (write_error 401 [] "invalid or missing X-Admin-Key", s)
      else answer
