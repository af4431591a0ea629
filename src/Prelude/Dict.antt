-- ===== src/Prelude/Dict.antt =====
-- Go's `map[string]string` and other maps with string keys, as association lists.
use Prim.Native.String.{String}
use mathlib.Core.Path.{◌≡◌, refl}
use mathlib.Core.Option.{Option, none, some}
use mathlib.Core.List.{List, [], ◌∷◌}
use native.Mathlib.Omega.{arith}
use text.Mathlib.Text.{◌==◌}
use text.Mathlib.TextEquality.{eq_iff}
use nocturne_atlas_event_str.Prelude.Tests.{if◌then◌else◌}

abbrev pub Dict {ℓ} : Type ℓ → Type ℓ
Dict V = List (String × V)

module _ {ℓ} {V : Type ℓ} where
  -- `v, ok := m[key]`
  unfoldable pub lookup : String → Dict V → Option V
  lookup key [] = none
  lookup key ((at, val) ∷ rest) = if at == key then some val else lookup key rest

  -- `m[key] = new`
  unfoldable pub insert : String → V → Dict V → Dict V
  insert key new [] = (key, new) ∷ []
  insert key new ((at, old) ∷ rest) =
      if at == key then (at, new) ∷ rest else (at, old) ∷ insert key new rest

  -- Reading after a write gives what was written, at its key only.
  pub lookup-insert :
      (key asked : String) (new : V) (d : Dict V)
      → lookup asked (insert key new d) ≡ (if key == asked then some new else lookup asked d)
  unfolding lookup insert
  lookup-insert key asked new [] = refl
  lookup-insert key asked new ((at, old) ∷ rest) =
      ground
        (arith, lookup-insert key asked new rest, eq_iff at asked, eq_iff at key, eq_iff key asked)
