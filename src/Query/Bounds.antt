-- ===== src/Query/Bounds.antt =====
-- The page limits that internal/application/query/service.go settles on.
use nocturne_atlas_event_str.Prelude.{ℕ, zero, suc, ◌≤◌, ◌≡◌, arith, ltb, Bool-cases, inl, inr}
use nocturne_atlas_event_str.Prelude.Int.{ℤ, pos, negsuc}
use nocturne_atlas_event_str.Query.{clamp_limit, clamp_offset}

-- The settled limit is from 1 to 100.
pub clamp_limit_lem : (given : ℤ) → (n : ℕ) × (clamp_limit given ≡ pos n) × (1 ≤ n) × (n ≤ 100)
unfolding clamp_limit
clamp_limit_lem (pos zero) = (20, ground arith, omega arith, omega arith)
clamp_limit_lem (pos (suc n)) = elim (Bool-cases (ltb 100 (suc n))) [
  | inl above ↦ (100, ground arith, omega arith, omega arith)
  | inr within ↦ (suc n, ground arith, omega arith, ground arith)
]
clamp_limit_lem (negsuc n) = (20, ground arith, omega arith, omega arith)

pub clamp_offset_lem : (given : ℤ) → (n : ℕ) × (clamp_offset given ≡ pos n)
unfolding clamp_offset
clamp_offset_lem (pos n) = (n, ground arith)
clamp_offset_lem (negsuc n) = (0, ground arith)
