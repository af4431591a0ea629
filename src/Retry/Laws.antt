-- ===== src/Retry/Laws.antt =====
-- How the loop of attempts ends, as steps from attempt to attempt.
use nocturne_atlas_event_str.Prelude.{
  ℕ, zero, suc, ◌+◌, ◌*◌, String, ◌≡◌, refl, ◌-◌, ap, ◌∙◌, true, ltb, arith,
}
use nocturne_atlas_event_str.Exec.{Error, text, wrap, Result, ok, err, Exec, attempt}
use nocturne_atlas_event_str.Exec.Rules.{after, bind_ok}
use nocturne_atlas_event_str.Retry.{last_of, after_attempt, attempts_left, retry}

module _ {S : Type 0} (body : Exec S (Unit {0})) (wait : ℕ → Exec S (Unit {0})) (failure : String)
    (limit : ℕ) (s : S) where
  -- From the state s, so many attempts failed, the last one with the error, each followed by a wait
  -- of two seconds more than the one before.
  pub data Failed : ℕ → Error → S → Type 0 where
    start : Failed 0 (text "") s
    again :
        {k : ℕ} {last x : Error} {s1 s2 s3 : S}
        → Failed k last s1
        → body s1 ≡ (err x, s2)
        → wait ((k + 1) * 2) s2 ≡ (ok tt, s3)
        → Failed (k + 1) x s3

  pub data Ended : Result (Unit {0}) → S → Type 0 where
    -- One of the attempts succeeded.
    succeeded :
        {k : ℕ} {last : Error} {s1 s2 : S}
        → Failed k last s1
        → ltb k limit ≡ true
        → body s1 ≡ (ok tt, s2)
        → Ended (ok tt) s2
    -- The wait after a failed attempt ended with an error.
    cancelled :
        {k : ℕ} {last x y : Error} {s1 s2 s3 : S}
        → Failed k last s1
        → ltb k limit ≡ true
        → body s1 ≡ (err x, s2)
        → wait ((k + 1) * 2) s2 ≡ (err y, s3)
        → Ended (err y) s3
    -- All attempts failed.
    exhausted : {last : Error} {s1 : S} → Failed limit last s1 → Ended (err (wrap failure last)) s1

  attempts_end :
      (left k : ℕ) (last : Error) (s1 : S)
      → Failed k last s1
      → k + left ≡ limit
      → let (r, s') = attempts_left body wait failure left (k + 1) last s1 in Ended r s'
  unfolding attempts_left after_attempt
  attempts_end zero k last s1 failed all =
      let done : k ≡ limit = omega arith in exhausted (rw done at failed)
  attempts_end (suc left) k last s1 failed all =
      tried (λ x s3 f. attempts_end left (k + 1) x s3 f (omega arith)) (body s1).0 (body s1).1 refl
    where
      Later : Type 0
      Later =
          (x : Error) (s3 : S)
          → Failed (k + 1) x s3
          → let (r, s') = attempts_left body wait failure left (k + 1 + 1) x s3 in Ended r s'

      below : ltb k limit ≡ true
      below = ground arith

      tried :
          Later
          → (r : Result (Unit {0})) (s2 : S) → body s1 ≡ (r, s2)
          → let (r', s') =
              after_attempt body wait failure
                (k + 1)
                (attempts_left body wait failure left (k + 1 + 1) (last_of r last))
                r
                s2 in
            Ended r' s'
      tried later (ok a) s2 e = succeeded failed below e
      tried later (err x) s2 e =
          after (λ r s'. Ended r s') (wait ((k + 1) * 2))
            (λ _. attempts_left body wait failure left (k + 1 + 1) x) s2
            (λ a s3 w. later x s3 (again failed e w)) (λ y s3 w. cancelled failed below e w)

  -- The loop ends in one of three ways.
  pub retry_ends : let (r, s') = retry body wait failure limit s in Ended r s'
  unfolding retry
  retry_ends = attempts_end limit 0 (text "") s start (omega arith)

  -- Where the loop stands after some failed attempts.
  Failed-attempts_left :
      {k : ℕ} {last : Error} {s1 : S}
      → Failed k last s1
      → (left : ℕ) → k + left ≡ limit
      → retry body wait failure limit s ≡ attempts_left body wait failure left (k + 1) last s1
  unfolding retry attempts_left after_attempt
  Failed-attempts_left start left all = let e : left ≡ limit = omega arith in rw e refl
  Failed-attempts_left (again {k} {last} {x} {s1} {s2} {s3} failed tried waited) left all =
      Failed-attempts_left failed (suc left) (omega arith)
      ∙ bind_ok (attempt body)
          (λ r.
            after_attempt body wait failure (k + 1)
              (attempts_left body wait failure left (k + 1 + 1) (last_of r last)) r)
          s1 (ap (λ (p : Result (Unit {0}) × S). (ok p.0, p.1)) tried)
      ∙ bind_ok (wait ((k + 1) * 2)) (λ _. attempts_left body wait failure left (k + 1 + 1) x) s2
          waited

  -- An attempt within the limit that succeeds, after those before it failed, ends the loop.
  pub retry_succeeds :
      {k : ℕ} {last : Error} {s1 s2 : S}
      → Failed k last s1
      → ltb k limit ≡ true
      → body s1 ≡ (ok tt, s2)
      → retry body wait failure limit s ≡ (ok tt, s2)
  unfolding attempts_left after_attempt
  retry_succeeds {k} {last} {s1} failed below e =
      Failed-attempts_left failed (suc (limit - k - 1)) (ground arith)
      ∙ bind_ok (attempt body)
          (λ r.
            after_attempt body wait failure (k + 1)
              (attempts_left body wait failure (limit - k - 1) (k + 1 + 1) (last_of r last)) r)
          s1 (ap (λ (p : Result (Unit {0}) × S). (ok p.0, p.1)) e)
