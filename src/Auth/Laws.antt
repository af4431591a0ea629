-- ===== src/Auth/Laws.antt =====
-- What the authenticators accept (internal/infrastructure/auth/simple, jwt).
use nocturne_atlas_event_str.Prelude.{
  String, ◌≡◌, ◌≢◌, refl, ap, sym, ◌∙◌, Option, none, some, ◌==◌, eq_iff, arith, Bool-cases, inl,
  inr,
}
use nocturne_atlas_event_str.Prelude.Text.{cut}
use nocturne_atlas_event_str.Exec.{Result, ok, err, text, or_wrap}
use nocturne_atlas_event_str.Exec.Rules.{after, after_guard, or_wrap-eq-ok}
use nocturne_atlas_event_str.Domain.{Time, Identity, tenant_of}
use nocturne_atlas_event_str.Auth.{
  Headers, Authenticator, Claims, JwtLibrary, check_key, bearer_token, identity_of, check_token,
  check_bearer, none_authenticator, build_authenticator,
}

abbrev pub KeyAccepted : {S : Type 0} → String → String → Result Identity → S → Type 0
KeyAccepted api_key key (ok id) s = (key ≡ api_key) × (key ≢ "") × (id.tenant_id ≡ "default")
KeyAccepted api_key key (err _) s = Unit

check_key_lem :
    {S : Type 0} (api_key key : String) (s : S)
    → let (r, s') = check_key api_key key s in KeyAccepted api_key key r s'
unfolding check_key
check_key_lem api_key key s = ground (arith, eq_iff key "", eq_iff key api_key)

module _ {S : Type 0} (now : S → Time × S) (jwt : JwtLibrary S) (secret : String) where
  -- The identity is that of the claims.
  abbrev pub Mirrors : Claims → Identity → Type 0
  Mirrors c id =
      (id.subject_id ≡ c.subject)
      × (id.tenant_id ≡ c.tenant_id)
      × (id.roles ≡ c.roles)
      × (c.subject ≢ "")
      × (c.tenant_id ≢ "")

  abbrev Checked : Claims → Result Identity → S → Type 0
  Checked c (ok id) s = Mirrors c id
  Checked c (err _) s = Unit

  identity_of_lem : (c : Claims) (s : S) → let (r, s') = identity_of now jwt c s in Checked c r s'
  unfolding identity_of
  identity_of_lem c s = elim (Bool-cases (c.subject == "")) [
    | inl anonymous ↦ rw anonymous tt
    | inr named ↦ elim (Bool-cases (c.tenant_id == "")) [
      | inl homeless ↦ rw (named, homeless) tt
      | inr scoped ↦
          rw (named, scoped)
            (
              refl,
              refl,
              refl,
              λ e. ground (arith, eq_iff c.subject ""),
              λ e. ground (arith, eq_iff c.tenant_id ""),
            )
    ]
  ]

  -- The library has found a token in the header to be valid, and the identity is that of its
  -- claims.
  abbrev pub BearerAccepted : String → S → Result Identity → S → Type 0
  BearerAccepted header s (ok id) s' =
      (token : String) × (c : Claims) × (bearer_token (cut b' ' header) ≡ some token)
      × ((jwt.parse_with_claims secret token s).0 ≡ ok c)
      × Mirrors c id
  BearerAccepted header s (err _) s' = Unit

  Checked-BearerAccepted :
      (header : String) (s s' : S) (token : String) (c : Claims) (r : Result Identity)
      → bearer_token (cut b' ' header) ≡ some token
      → (jwt.parse_with_claims secret token s).0 ≡ ok c
      → Checked c r s'
      → BearerAccepted header s r s'
  Checked-BearerAccepted header s s' token c (ok id) t p h = (token, c, t, p, h)
  Checked-BearerAccepted header s s' token c (err x) t p h = tt

  check_bearer_lem :
      (header : String) (s : S)
      → let (r, s') = check_bearer now jwt secret header s in BearerAccepted header s r s'
  unfolding check_bearer check_token
  check_bearer_lem header s =
      after_guard (BearerAccepted header s) (text "missing Authorization header")
        (check_token now jwt secret (bearer_token (cut b' ' header))) s (header == "") (λ _. tt)
        (λ _. go (bearer_token (cut b' ' header)) refl)
    where
      go :
          (o : Option String)
          → bearer_token (cut b' ' header) ≡ o
          → let (r, s') = check_token now jwt secret o s in BearerAccepted header s r s'
      go none e = tt
      go (some token) e =
          after (BearerAccepted header s)
            (or_wrap "invalid token" (jwt.parse_with_claims secret token)) (identity_of now jwt) s
            (λ c s1 p.
              Checked-BearerAccepted header s _ token c _ e
                (ap (λ x. x.0)
                  (or_wrap-eq-ok "invalid token" (jwt.parse_with_claims secret token) s p))
                (identity_of_lem c s1))
            (λ x s1 p. tt)

module _ {S : Type 0} (now : S → Time × S) (jwt : JwtLibrary S) (mode secret api_key : String) where
  -- The identity names a tenant, and the credential is the one that the mode asks for.
  abbrev pub Accepted : Headers → S → Result Identity → S → Type 0
  Accepted header s (ok id) s' =
      (tenant_of (some id) ≡ some id)
      × (mode ≡ "simple" → KeyAccepted api_key (header "X-API-Key") (ok id) s')
      × (mode ≡ "jwt" → BearerAccepted now jwt secret (header "Authorization") s (ok id) s')
  Accepted header s (err _) s' = Unit

  abbrev AcceptsWell : Option (Authenticator S) → Type 0
  AcceptsWell none = Unit
  AcceptsWell (some a) =
      (header : Headers) (s : S) → let (r, s') = a.authenticate header s in Accepted header s r s'

  scoped : (id : Identity) → id.tenant_id ≢ "" → tenant_of (some id) ≡ some id
  scoped id h = ground (arith, eq_iff id.tenant_id "")

  none_not_simple : ◌≢◌ {A = String} "none" "simple"
  none_not_simple = ground (arith, eq_iff "none" "simple")

  none_not_jwt : ◌≢◌ {A = String} "none" "jwt"
  none_not_jwt = ground (arith, eq_iff "none" "jwt")

  simple_not_jwt : ◌≢◌ {A = String} "simple" "jwt"
  simple_not_jwt = ground (arith, eq_iff "simple" "jwt")

  none-AcceptsWell : mode ≡ "none" → AcceptsWell (some none_authenticator)
  unfolding none_authenticator
  none-AcceptsWell m header s =
      (refl, λ e. absurd (none_not_simple (sym m ∙ e)), λ e. absurd (none_not_jwt (sym m ∙ e)))

  key_accepted :
      (header : Headers) (s s' : S) (r : Result Identity)
      → mode ≡ "simple"
      → KeyAccepted api_key (header "X-API-Key") r s'
      → Accepted header s r s'
  key_accepted header s s' (ok id) m (same, given, home) =
      (rw home refl, λ _. (same, given, home), λ e. absurd (simple_not_jwt (sym m ∙ e)))
  key_accepted header s s' (err x) m h = tt

  bearer_accepted :
      (header : Headers) (s s' : S) (r : Result Identity)
      → mode ≡ "jwt"
      → BearerAccepted now jwt secret (header "Authorization") s r s'
      → Accepted header s r s'
  bearer_accepted header s s' (ok id) m (token, c, t, p, (sub, home, roles, named, set)) = (
    scoped id (rw home set),
    λ e. absurd (simple_not_jwt (sym e ∙ m)),
    λ _. (token, c, t, p, (sub, home, roles, named, set)),
  )
  bearer_accepted header s s' (err x) m h = tt

  build_authenticator-AcceptsWell : AcceptsWell (build_authenticator now jwt mode secret api_key)
  unfolding build_authenticator
  build_authenticator-AcceptsWell = elim (Bool-cases (mode == "none")) [
    | inl free ↦ rw free (none-AcceptsWell ((eq_iff mode "none").0 free))
    | inr m1 ↦ elim (Bool-cases (mode == "jwt")) [
      | inl tokens ↦ elim (Bool-cases (secret == "")) [
        | inl unset ↦ rw (m1, tokens, unset) tt
        | inr set ↦
            rw (m1, tokens, set)
              λ header s.
                bearer_accepted header s _ _ ((eq_iff mode "jwt").0 tokens)
                  (check_bearer_lem now jwt secret (header "Authorization") s)
      ]
      | inr m2 ↦ elim (Bool-cases (mode == "simple")) [
        | inl keyed ↦
            rw (m1, m2, keyed)
              λ header s.
                key_accepted header s _ _ ((eq_iff mode "simple").0 keyed)
                  (check_key_lem api_key (header "X-API-Key") s)
        | inr unknown ↦ rw (m1, m2, unknown) tt
      ]
    ]
  ]

-- Whichever authenticator the configuration selects, an identity that it returns names a tenant, so
-- the services' own check never refuses it. In the mode "simple" the request then carried the
-- configured API key; in the mode "jwt" it carried a bearer token that the library found valid for
-- the configured secret, and the identity is that of the token's claims.
pub authenticate_accepts :
    {S : Type 0} (now : S → Time × S) (jwt : JwtLibrary S) (mode secret api_key : String)
    (a : Authenticator S)
    → build_authenticator now jwt mode secret api_key ≡ some a
    → (header : Headers) (s : S)
    → let (r, s') = a.authenticate header s in Accepted now jwt mode secret api_key header s r s'
authenticate_accepts now jwt mode secret api_key a built =
    rw built at (build_authenticator-AcceptsWell now jwt mode secret api_key)
