-- ===== src/Replay/Contiguous.antt =====
-- `validateContiguous` (internal/application/replay/service.go) accepts exactly the runs of
-- consecutive versions.
use nocturne_atlas_event_str.Prelude.{
  ℕ, ◌+◌, ◌-◌, ◌≤◌, ◌^◌, ◌≡◌, refl, ◌↔◌, true, List, [], ◌∷◌, arith, length, Bool-cases, inl, inr,
}
use nocturne_atlas_event_str.Prelude.Int.{pos, eqb_ℤ, eqb_ℤ_iff, int64_add, int64_add_one}
use nocturne_atlas_event_str.Exec.{ok}
use nocturne_atlas_event_str.Domain.{Event}
use nocturne_atlas_event_str.Replay.{validate_after, validate_contiguous}

-- The versions are `n`, `n + 1` and so on.
abbrev pub CountsFrom : ℕ → List Event → Type 0
CountsFrom n [] = Unit
CountsFrom n (e ∷ es) = (e.version ≡ pos n) × CountsFrom (n + 1) es

validate_after_sound :
    (n : ℕ) (prev : Event) (es : List Event)
    → prev.version ≡ pos n
    → n + length es ≤ 2 ^ 63 - 1
    → validate_after prev es ≡ ok tt
    → CountsFrom (n + 1) es
unfolding validate_after
validate_after_sound n prev [] v small h = tt
validate_after_sound n prev (e ∷ es) v small h =
    elim (Bool-cases (eqb_ℤ e.version (int64_add prev.version (pos 1)))) [
      | inl next ↦
          let here : e.version ≡ pos (n + 1) =
            (eqb_ℤ_iff _ _).0 (rw (v, int64_add_one n (omega arith)) at next) in
          (
            here,
            validate_after_sound (n + 1) e es here (omega arith) (rw (next, validate_after) at h),
          )
      | inr gap ↦ ground arith
    ]

validate_after_complete :
    (n : ℕ) (prev : Event) (es : List Event)
    → prev.version ≡ pos n
    → n + length es ≤ 2 ^ 63 - 1
    → CountsFrom (n + 1) es
    → validate_after prev es ≡ ok tt
unfolding validate_after
validate_after_complete n prev [] v small h = refl
validate_after_complete n prev (e ∷ es) v small (here, rest) =
    let same : eqb_ℤ e.version (int64_add prev.version (pos 1)) ≡ true =
      rw (v, int64_add_one n (omega arith), here)
        ((eqb_ℤ_iff (pos (n + 1)) (pos (n + 1))).1 refl) in
    rw same (validate_after_complete (n + 1) e es here (omega arith) rest)

-- A list that begins with version `n` and stays within `int64` passes the check exactly if its
-- versions are `n`, `n + 1` and so on: no gap, no repetition, no step back.
pub validate_contiguous_iff :
    (n : ℕ) (first : Event) (es : List Event)
    → first.version ≡ pos n
    → n + length es ≤ 2 ^ 63 - 1
    → (validate_contiguous (first ∷ es) ≡ ok tt) ↔ CountsFrom n (first ∷ es)
unfolding validate_contiguous
validate_contiguous_iff n first es v small = (
  λ h. (v, validate_after_sound n first es v small h),
  λ h. validate_after_complete n first es v small h.1,
)
