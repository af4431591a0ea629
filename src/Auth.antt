-- ===== src/Auth.antt =====
-- Authentication: internal/infrastructure/auth (the port and its three implementations) and
-- internal/application/auth/issuer.go. The JWT library is a parameter.
pub mod Laws
pub mod Tokens
use Prim.Native.Char.{code}
use Prim.Native.String
use nocturne_atlas_event_str.Prelude.{
  ℕ, ◌+◌, String, Bool, true, false, not, Option, none, some, List, [], ◌∷◌, ◌&&◌, ◌==◌, leb, eqb,
  if◌then◌else◌,
}
use nocturne_atlas_event_str.Prelude.Int.{ℤ, pos, leb_ℤ, int_add, div_pos}
use nocturne_atlas_event_str.Prelude.Text.{cut}
use nocturne_atlas_event_str.Exec.{
  Error, text, Result, ok, err, Exec, raise, raise_if, or_wrap, always, pure, ◌>>=◌, ◌>>◌,
}
use nocturne_atlas_event_str.Domain.{Time, Identity}

-- `r.Header.Get` of the request to authenticate; a header that is not there reads as "".
abbrev pub Headers : Type 0
Headers = String → String

-- `infraauth.Authenticator`
pub record Authenticator (S : Type 0) : Type 0 where
  pub authenticate : Headers → Exec S Identity

abbrev pub default_roles : List String
default_roles = "writer" ∷ "reader" ∷ []

-- `none.Authenticator`
unfoldable pub none_authenticator : {S : Type 0} → Authenticator S
none_authenticator = record {
  authenticate = λ header.
      pure (record { subject_id = "anonymous"; tenant_id = "default"; roles = default_roles });
}

-- `simple.Authenticator`
unfoldable pub check_key : {S : Type 0} → String → String → Exec S Identity
check_key api_key key = do
  raise_if (key == "") (text "missing X-API-Key header")
  raise_if (not (key == api_key)) (text "invalid API key")
  pure (record { subject_id = "api-key"; tenant_id = "default"; roles = default_roles })

abbrev pub simple_authenticator : {S : Type 0} → String → Authenticator S
simple_authenticator api_key = record {
  authenticate = λ header. check_key api_key (header "X-API-Key");
}

-- A duration is a number of nanoseconds.
abbrev pub Duration : Type 0
Duration = ℤ

abbrev pub hour : Duration
hour = pos 3600000000000

-- `t.Add(d)` for a duration that is not negative, to the microsecond.
abbrev pub add_duration : Time → Duration → Time
add_duration t d = int_add t (div_pos d 1000)

pub record Claims : Type 0 where
  pub subject : String
  pub expires_at : Time
  pub issued_at : Time
  pub tenant_id : String
  pub roles : List String

pub record IssueCommand : Type 0 where
  pub identity : Identity
  pub expires_in : Duration

pub record IssuedToken : Type 0 where
  pub token : String
  pub expires_at : Time

-- `appauth.Issuer`
pub record Issuer (S : Type 0) : Type 0 where
  pub issue : IssueCommand → Exec S IssuedToken

-- What the program calls of github.com/golang-jwt/jwt: signing claims by HS256 with a secret, and
-- parsing and validating a token with a secret, HMAC methods only.
pub record JwtLibrary (S : Type 0) : Type 0 where
  pub signed_string : String → Claims → Exec S String
  pub parse_with_claims : String → String → Exec S Claims

-- `strings.EqualFold` with a text of ASCII letters other than k and s, which no other characters
-- fold to.
abbrev pub lower : ℕ → ℕ
lower c = if leb b'A' c && leb c b'Z' then c + 32 else c

unfoldable pub equal_fold : String → String → Bool
equal_fold String.[] String.[] = true
equal_fold String.[] (String.◌∷◌ d t) = false
equal_fold (String.◌∷◌ c s) String.[] = false
equal_fold (String.◌∷◌ c s) (String.◌∷◌ d t) =
    eqb (lower (code c)) (lower (code d)) && equal_fold s t

-- The token of the header `Authorization: Bearer <token>`.
unfoldable pub bearer_token : Option (String × String) → Option String
bearer_token none = none
bearer_token (some (scheme, token)) = if equal_fold scheme "Bearer" then some token else none

-- The token's lifetime: one hour where none is asked for.
abbrev pub token_expiry : Duration → Duration
token_expiry d = if leb_ℤ d (pos 0) then hour else d

module _ {S : Type 0} (now : S → Time × S) (jwt : JwtLibrary S) where
  -- The checks on the claims of a valid token.
  unfoldable pub identity_of : Claims → Exec S Identity
  identity_of c = do
    raise_if (c.subject == "") (text "token missing sub claim")
    raise_if (c.tenant_id == "") (text "token missing tenant_id claim")
    pure (record { subject_id = c.subject; tenant_id = c.tenant_id; roles = c.roles })

  unfoldable pub check_token : String → Option String → Exec S Identity
  check_token secret none = raise (text "authorization header must be: Bearer <token>")
  check_token secret (some token) = do
    c ← or_wrap "invalid token" (jwt.parse_with_claims secret token)
    identity_of c

  -- `jwt.Authenticator.Authenticate`
  unfoldable pub check_bearer : String → String → Exec S Identity
  check_bearer secret header = do
    raise_if (header == "") (text "missing Authorization header")
    check_token secret (bearer_token (cut b' ' header))

  abbrev pub jwt_authenticator : String → Authenticator S
  jwt_authenticator secret = record {
    authenticate = λ header. check_bearer secret (header "Authorization");
  }

  -- `jwt.Authenticator.Issue`
  unfoldable pub issue : String → IssueCommand → Exec S IssuedToken
  issue secret cmd = do
    started ← always now
    issued_at ← always now
    token ← or_wrap "sign token" (
        jwt.signed_string secret (record {
          subject = cmd.identity.subject_id;
          expires_at = add_duration started (token_expiry cmd.expires_in);
          issued_at = issued_at;
          tenant_id = cmd.identity.tenant_id;
          roles = cmd.identity.roles;
        }))
    pure (record { token = token; expires_at = add_duration started (token_expiry cmd.expires_in) })

  abbrev pub jwt_issuer : String → Issuer S
  jwt_issuer secret = record { issue = issue secret }

  -- `buildIssuer` of cmd/ingest-api/main.go
  unfoldable pub build_issuer : String → Option (Issuer S)
  build_issuer jwt_secret = if jwt_secret == "" then none else some (jwt_issuer jwt_secret)

  -- `buildAuthenticator` of cmd/ingest-api/main.go; `none` where the process exits.
  unfoldable pub build_authenticator : String → String → String → Option (Authenticator S)
  build_authenticator mode jwt_secret api_key =
      if mode == "none"
      then some none_authenticator
      else if mode == "jwt"
      then (if jwt_secret == "" then none else some (jwt_authenticator jwt_secret))
      else if mode == "simple"
      then some (simple_authenticator api_key)
      else none
