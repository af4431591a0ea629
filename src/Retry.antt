-- ===== src/Retry.antt =====
-- The loop by which a service waits for a dependency at startup: `EnsureTopics` of
-- internal/infrastructure/kafka/topic_manager.go and `NewIndexer` of
-- internal/infrastructure/elasticsearch/indexer.go. The body of the loop and the wait are
-- parameters.
pub mod Laws
use nocturne_atlas_event_str.Prelude.{ℕ, zero, suc, ◌+◌, ◌*◌, String}
use nocturne_atlas_event_str.Exec.{
  Error, text, wrap, Result, ok, err, Exec, raise, attempt, pure, ◌>>=◌, ◌>>◌,
}

-- `lastErr`
abbrev pub last_of : Result (Unit {0}) → Error → Error
last_of (ok _) last = last
last_of (err e) last = e

module _ {S : Type 0} (body : Exec S (Unit {0})) (wait : ℕ → Exec S (Unit {0}))
    (failure : String) where
  -- What follows on an attempt that ended in `r`: a wait of two seconds more than the one before
  -- and the next attempts, if it failed.
  unfoldable pub after_attempt : ℕ → Exec S (Unit {0}) → Result (Unit {0}) → Exec S (Unit {0})
  after_attempt n next (ok _) = pure tt
  after_attempt n next (err _) = wait (n * 2) >> next

  -- The attempts that are left, from the one with number `n` on.
  unfoldable pub attempts_left : ℕ → ℕ → Error → Exec S (Unit {0})
  attempts_left zero n last = raise (wrap failure last)
  attempts_left (suc left) n last = do
    r ← attempt body
    after_attempt n (attempts_left left (n + 1) (last_of r last)) r

  -- The loop with so many attempts.
  unfoldable pub retry : ℕ → Exec S (Unit {0})
  retry limit = attempts_left limit 1 (text "")
