-- ===== src/Http/Lifetimes.antt =====
-- The lifetimes of the tokens that `authIssue` and `createTenant` ask the issuer for
-- (internal/infrastructure/httpserver/handler.go).
use nocturne_atlas_event_str.Prelude.{ℕ, ◌*◌, ◌≤◌, ◌≡◌, refl, true, arith, if◌then◌else◌}
use nocturne_atlas_event_str.Prelude.Int.{ℤ, pos, leb_ℤ, ltb_ℤ, int64_mul}
use nocturne_atlas_event_str.Auth.{Duration}
use nocturne_atlas_event_str.Http.Credentials.{lifetime, seconds, issue_lifetime, tenant_lifetime}

-- More than nothing and at most the maximum.
abbrev pub Within : Duration → Duration → Type 0
Within max d = (ltb_ℤ (pos 0) d ≡ true) × (leb_ℤ d max ≡ true)

lifetime-Within : (default max n : ℤ) → Within max default → Within max (lifetime default max n)
unfolding lifetime
lifetime-Within default max n h = go (seconds n)
  where
    go :
        (d : ℤ)
        → Within max (
            let given = if leb_ℤ d (pos 0) then default else d in
            if ltb_ℤ max given then max else given)
    go d = ground arith

lifetime_exact :
    (default : ℤ) (max n : ℕ)
    → 1 ≤ n
    → n * 1000000000 ≤ max
    → n ≤ 2592000
    → lifetime default (pos max) (pos n) ≡ pos (n * 1000000000)
unfolding lifetime int64_mul
lifetime_exact default max n low high small = ground arith

-- Whatever number of seconds a request asks for, a negative one and one whose nanoseconds wrap
-- around included, the issuer is asked for more than nothing and for a day at most by `authIssue`,
-- for 30 days at most by `createTenant`; and a number from 1 to the maximum is kept exactly.
pub lifetimes_bounded :
    (n : ℤ)
    → Within (pos 86400000000000) (issue_lifetime n)
      × Within (pos 2592000000000000) (tenant_lifetime n)
      × ((m : ℕ) → n ≡ pos m → 1 ≤ m → m ≤ 86400 → issue_lifetime n ≡ pos (m * 1000000000))
      × ((m : ℕ) → n ≡ pos m → 1 ≤ m → m ≤ 2592000 → tenant_lifetime n ≡ pos (m * 1000000000))
lifetimes_bounded n = (
  lifetime-Within (pos 3600000000000) (pos 86400000000000) n (refl, refl),
  lifetime-Within (pos 86400000000000) (pos 2592000000000000) n (refl, refl),
  λ m e low high. rw e (lifetime_exact _ _ m low (omega arith) (omega arith)),
  λ m e low high. rw e (lifetime_exact _ _ m low (omega arith) high),
)
