-- ===== src/Exec.antt =====
-- Calls that change state and may fail: Go's `(T, error)` results over an explicit state, and the
-- error values of the program (`errors.New`, `fmt.Errorf`, `errors.Is`).
pub mod Rules
use nocturne_atlas_event_str.Prelude.{ℕ, String, Bool, true, false, if◌then◌else◌}
use nocturne_atlas_event_str.Prelude.Int.{ℤ}

-- The error values that callers compare by `errors.Is`.
pub data Sentinel : Type 0 where
  not_found replay_limit_exceeded deadline_exceeded no_rows : Sentinel

abbrev pub same_sentinel : Sentinel → Sentinel → Bool
same_sentinel not_found not_found = true
same_sentinel replay_limit_exceeded replay_limit_exceeded = true
same_sentinel deadline_exceeded deadline_exceeded = true
same_sentinel no_rows no_rows = true
same_sentinel _ _ = false

-- `text` is an error with a fixed text, `wrap` is `fmt.Errorf("text: %w", err)`; the others carry
-- the values that their text is formatted from.
pub data Error : Type 0 where
  sentinel : Sentinel → Error
  text : String → Error
  wrap : String → Error → Error
  version_gap : String → ℤ → ℤ → ℤ → Error
  over_limit : ℕ → ℤ → Error

-- `errors.Is`; `over_limit` wraps `ErrReplayLimitExceeded`.
abbrev pub is_error : Error → Sentinel → Bool
is_error (sentinel a) b = same_sentinel a b
is_error (wrap _ e) b = is_error e b
is_error (over_limit _ _) b = same_sentinel replay_limit_exceeded b
is_error (text _) b = false
is_error (version_gap _ _ _ _) b = false

pub data Result {ℓ} (A : Type ℓ) : Type ℓ where
  ok : A → Result A
  err : Error → Result A

-- What was written before an error stays written, so the state comes back beside the error too.
abbrev pub Exec : Type 0 → Type 0 → Type 0
Exec S A = S → Result A × S

module _ {S A : Type 0} where
  abbrev pub pure : A → Exec S A
  pure a s = (ok a, s)

  abbrev pub raise : Error → Exec S A
  raise e s = (err e, s)

  abbrev pub lift : Result A → Exec S A
  lift r s = (r, s)

  -- `if err != nil { return fmt.Errorf("text: %w", err) }`
  abbrev pub or_wrap : String → Exec S A → Exec S A
  or_wrap t m s = let (r, s') = m s in elim r [ ok a ↦ (ok a, s') | err e ↦ (err (wrap t e), s') ]

  -- The error is handed to the caller as a value.
  abbrev pub attempt : Exec S A → Exec S (Result A)
  attempt m s = let (r, s') = m s in (ok r, s')

infixl 5 ◌>>=◌ ◌>>◌
abbrev pub ◌>>=◌ : {S A B : Type 0} → Exec S A → (A → Exec S B) → Exec S B
◌>>=◌ m f s = let (r, s') = m s in elim r [ ok a ↦ f a s' | err e ↦ (err e, s') ]

abbrev pub ◌>>◌ : {S A B : Type 0} → Exec S A → Exec S B → Exec S B
m >> k = m >>= λ _. k

-- `if c { return nil, e }`
abbrev pub raise_if : {S : Type 0} → Bool → Error → Exec S (Unit {0})
raise_if c e s = (if c then err e else ok tt, s)

-- A call that cannot fail, such as reading the clock.
abbrev pub always : {S A : Type 0} → (S → A × S) → Exec S A
always f s = let (a, s') = f s in (ok a, s')
