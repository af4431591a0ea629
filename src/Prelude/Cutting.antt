-- ===== src/Prelude/Cutting.antt =====
-- How the text functions of Prelude.Text take apart what was put together around a separator.
use Prim.Native.Nat.{ℕ}
use Prim.Native.Char.{Char, code}
use Prim.Native.String
use Prim.Native.String.{String, [], ◌∷◌}
use mathlib.Core.Path.{◌≡◌, refl, ap, ◌∙◌}
use mathlib.Core.Bool.{Bool, true, not, ◌&&◌}
use mathlib.Core.Option.{some}
use mathlib.Core.List.{List}
use native.Mathlib.Omega.{arith}
use text.Mathlib.TextLemmas.{nil-append, cons-append, append-nil, append_assoc}
use nocturne_atlas_event_str.Prelude.Tests.{eqb}
use nocturne_atlas_event_str.Prelude.Text.{
  push, split_from, cut_from, is_space, trim_left, trim_right, trim_space,
}

-- The text does not have the separator.
unfoldable pub lacks : ℕ → String → Bool
lacks sep [] = true
lacks sep (c ∷ s) = not (eqb (code c) sep) && lacks sep s

-- A part is closed by the separator behind it.
pub split_from-lacks :
    (sep : ℕ) (d : Char) (cur s rest : String)
    → code d ≡ sep
    → lacks sep s ≡ true
    → split_from sep cur (String.◌++◌ s (String.◌++◌ (d ∷ []) rest))
      ≡ List.◌∷◌ (String.◌++◌ cur s) (split_from sep "" rest)
unfolding split_from lacks
split_from-lacks sep d cur [] rest e h =
    rw (nil-append, cons-append, nil-append, append-nil) (ground arith)
split_from-lacks sep d cur (c ∷ s) rest e h = rw (cons-append) (
    ground (
      arith,
      split_from-lacks sep d (push cur c) s rest e,
      append_assoc cur (c ∷ []) s,
      cons-append c [] s,
      nil-append s,
    ))

-- The last part.
pub split_from-end :
    (sep : ℕ) (cur s : String)
    → lacks sep s ≡ true
    → split_from sep cur s ≡ List.◌∷◌ (String.◌++◌ cur s) List.[]
unfolding split_from lacks
split_from-end sep cur [] h = rw (append-nil) refl
split_from-end sep cur (c ∷ s) h = ground (
  arith,
  split_from-end sep (push cur c) s,
  append_assoc cur (c ∷ []) s,
  cons-append c [] s,
  nil-append s,
)

-- A text is cut at the first separator.
pub cut_from-lacks :
    (sep : ℕ) (d : Char) (cur s rest : String)
    → code d ≡ sep
    → lacks sep s ≡ true
    → cut_from sep cur (String.◌++◌ s (String.◌++◌ (d ∷ []) rest)) ≡ some (String.◌++◌ cur s, rest)
unfolding cut_from lacks
cut_from-lacks sep d cur [] rest e h =
    rw (nil-append, cons-append, nil-append, append-nil) (ground arith)
cut_from-lacks sep d cur (c ∷ s) rest e h = rw (cons-append) (
    ground (
      arith,
      cut_from-lacks sep d (push cur c) s rest e,
      append_assoc cur (c ∷ []) s,
      cons-append c [] s,
      nil-append s,
    ))

pub lacks-append :
    (sep : ℕ) (s t : String)
    → lacks sep s ≡ true
    → lacks sep t ≡ true
    → lacks sep (String.◌++◌ s t) ≡ true
unfolding lacks
lacks-append sep [] t h k = rw (nil-append t) k
lacks-append sep (c ∷ s) t h k = rw (cons-append c s t) (ground (arith, lacks-append sep s t))

-- The text has no white space.
unfoldable pub is_solid : String → Bool
is_solid [] = true
is_solid (c ∷ s) = not (is_space (code c)) && is_solid s

pub is_solid-append :
    (s t : String) → is_solid s ≡ true → is_solid t ≡ true → is_solid (String.◌++◌ s t) ≡ true
unfolding is_solid
is_solid-append [] t h k = rw (nil-append t) k
is_solid-append (c ∷ s) t h k = rw (cons-append c s t) (ground (arith, is_solid-append s t))

trim_left-is_solid : (s : String) → is_solid s ≡ true → trim_left s ≡ s
unfolding is_solid trim_left
trim_left-is_solid [] h = refl
trim_left-is_solid (c ∷ s) h = ground arith

trim_right-is_solid : (s : String) → is_solid s ≡ true → trim_right s ≡ s
unfolding is_solid trim_right
trim_right-is_solid [] h = refl
trim_right-is_solid (c ∷ s) h = ground (arith, trim_right-is_solid s)

-- Nothing is trimmed from it.
pub trim_space-is_solid : (s : String) → is_solid s ≡ true → trim_space s ≡ s
trim_space-is_solid s h = ap trim_right (trim_left-is_solid s h) ∙ trim_right-is_solid s h
