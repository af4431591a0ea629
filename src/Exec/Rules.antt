-- ===== src/Exec/Rules.antt =====
-- Rules for calls that may fail: what holds after a sequence of two, from what holds after each.
use mathlib.Core.Path.{subst}
use nocturne_atlas_event_str.Prelude.{◌≡◌, refl, sym, ap, String, Bool, true, false}
use nocturne_atlas_event_str.Exec.{
  Error, Result, ok, err, wrap, Exec, ◌>>=◌, ◌>>◌, raise_if, or_wrap,
}

module _ {S A B : Type 0} (P : Result B → S → Type 0) (m : Exec S A) (f : A → Exec S B)
    (s : S) where
  -- The first call is known to succeed.
  pub after_ok :
      (a : A) (s1 : S)
      → m s ≡ (ok a, s1)
      → P (f a s1).0 (f a s1).1
      → P ((m >>= f) s).0 ((m >>= f) s).1
  after_ok a s1 e p =
      subst (λ (x : Result A × S). P (((λ (_ : S). x) >>= f) s).0 (((λ (_ : S). x) >>= f) s).1)
        (sym e) p

  bind_split :
      (x : Result A × S)
      → m s ≡ x
      → ((a : A) (s1 : S) → m s ≡ (ok a, s1) → P (f a s1).0 (f a s1).1)
      → ((e : Error) (s1 : S) → m s ≡ (err e, s1) → P (err e) s1)
      → P (((λ (_ : S). x) >>= f) s).0 (((λ (_ : S). x) >>= f) s).1
  bind_split (ok a, s1) e good bad = good a s1 e
  bind_split (err x, s1) e good bad = bad x s1 e

  -- The first call ends either way.
  pub after :
      ((a : A) (s1 : S) → m s ≡ (ok a, s1) → P (f a s1).0 (f a s1).1)
      → ((e : Error) (s1 : S) → m s ≡ (err e, s1) → P (err e) s1)
      → P ((m >>= f) s).0 ((m >>= f) s).1
  after = bind_split (m s) refl

-- A guard that fires ends the call with its error and the state as it was.
module _ {S B : Type 0} (P : Result B → S → Type 0) (e : Error) (k : Exec S B) (s : S) where
  pub after_guard :
      (c : Bool)
      → (c ≡ true → P (err e) s)
      → (c ≡ false → P (k s).0 (k s).1)
      → P ((raise_if c e >> k) s).0 ((raise_if c e >> k) s).1
  after_guard true yes_case no_case = yes_case refl
  after_guard false yes_case no_case = no_case refl

module _ {S A : Type 0} (P : Result A → S → Type 0) (t : String) (m : Exec S A) (s : S) where
  wrap_split :
      (x : Result A × S)
      → m s ≡ x
      → ((a : A) (s1 : S) → m s ≡ (ok a, s1) → P (ok a) s1)
      → ((e : Error) (s1 : S) → m s ≡ (err e, s1) → P (err (wrap t e)) s1)
      → P (or_wrap t (λ (_ : S). x) s).0 (or_wrap t (λ (_ : S). x) s).1
  wrap_split (ok a, s1) e good bad = good a s1 e
  wrap_split (err x, s1) e good bad = bad x s1 e

  -- A wrapped call ends as the call does, its error wrapped.
  pub after_wrap :
      ((a : A) (s1 : S) → m s ≡ (ok a, s1) → P (ok a) s1)
      → ((e : Error) (s1 : S) → m s ≡ (err e, s1) → P (err (wrap t e)) s1)
      → P (or_wrap t m s).0 (or_wrap t m s).1
  after_wrap = wrap_split (m s) refl

module _ {S A B : Type 0} (P : Result B → S → Type 0) (t : String) (m : Exec S A) (f : A → Exec S B)
    (s : S) where
  wrap_bind_split :
      (x : Result A × S)
      → m s ≡ x
      → ((a : A) (s1 : S) → m s ≡ (ok a, s1) → P (f a s1).0 (f a s1).1)
      → ((e : Error) (s1 : S) → m s ≡ (err e, s1) → P (err (wrap t e)) s1)
      → P ((or_wrap t (λ (_ : S). x) >>= f) s).0 ((or_wrap t (λ (_ : S). x) >>= f) s).1
  wrap_bind_split (ok a, s1) e good bad = good a s1 e
  wrap_bind_split (err x, s1) e good bad = bad x s1 e

  -- A sequence whose first call is wrapped ends with the wrapped error of that call or as the rest.
  pub after_or_wrap :
      ((a : A) (s1 : S) → m s ≡ (ok a, s1) → P (f a s1).0 (f a s1).1)
      → ((e : Error) (s1 : S) → m s ≡ (err e, s1) → P (err (wrap t e)) s1)
      → P ((or_wrap t m >>= f) s).0 ((or_wrap t m >>= f) s).1
  after_or_wrap = wrap_bind_split (m s) refl

-- A sequence whose first call is known to succeed is its second call.
pub bind_ok :
    {S A B : Type 0} (m : Exec S A) (f : A → Exec S B) (s : S) {a : A} {s1 : S}
    → m s ≡ (ok a, s1)
    → (m >>= f) s ≡ f a s1
bind_ok {S} {A} m f s e = ap (λ (x : Result A × S). ((λ (_ : S). x) >>= f) s) e

-- A wrapped call that succeeds is the call.
pub or_wrap-eq-ok :
    {S A : Type 0} (t : String) (m : Exec S A) (s : S) {a : A} {s1 : S}
    → or_wrap t m s ≡ (ok a, s1)
    → m s ≡ (ok a, s1)
or_wrap-eq-ok {S} {A} t m s {a} {s1} h = go (m s) h
  where
    go : (x : Result A × S) → or_wrap t (λ (_ : S). x) s ≡ (ok a, s1) → x ≡ (ok a, s1)
    go (ok b, s2) e = e
    go (err x, s2) e = cc

-- A wrapped call ends in the state that the call ends in.
pub or_wrap-state : {S A : Type 0} (t : String) (m : Exec S A) (s : S) → (or_wrap t m s).1 ≡ (m s).1
or_wrap-state {S} {A} t m s = go (m s)
  where
    go : (x : Result A × S) → (or_wrap t (λ (_ : S). x) s).1 ≡ x.1
    go (ok b, s2) = refl
    go (err x, s2) = refl

-- A wrapped call whose call succeeds.
pub or_wrap_ok :
    {S A : Type 0} (t : String) (m : Exec S A) (s : S) {a : A}
    → (m s).0 ≡ ok a
    → or_wrap t m s ≡ (ok a, (m s).1)
or_wrap_ok {S} {A} t m s {a} h = go (m s) h
  where
    go : (x : Result A × S) → x.0 ≡ ok a → or_wrap t (λ (_ : S). x) s ≡ (ok a, x.1)
    go (ok b, s2) e = cc
    go (err x, s2) e = cc

-- A call that succeeds does so wrapped too.
pub or_wrap-ok :
    {S A : Type 0} (t : String) (m : Exec S A) (s : S) {a : A} {s1 : S}
    → m s ≡ (ok a, s1)
    → or_wrap t m s ≡ (ok a, s1)
or_wrap-ok {S} {A} t m s e = ap (λ (x : Result A × S). or_wrap t (λ (_ : S). x) s) e
