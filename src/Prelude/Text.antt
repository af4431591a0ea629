-- ===== src/Prelude/Text.antt =====
-- The functions of Go's package `strings` that the program calls, over native texts. Every
-- separator is an ASCII character, so cutting at characters is cutting at bytes.
use Prim.Native.Char.{Char, code}
use Prim.Native.String
use Prim.Native.String.{String, [], ◌∷◌}
use mathlib.Core.Bool.{Bool, true, false, ◌&&◌, ◌||◌}
use mathlib.Core.Option.{Option, none, some}
use mathlib.Core.List.{List}
use Prim.Native.Nat.{ℕ}
use nocturne_atlas_event_str.Prelude.Tests.{eqb, leb, if◌then◌else◌}

-- The text with a character at its end.
abbrev pub push : String → Char → String
push s c = String.◌++◌ s (c ∷ [])

-- `strings.Split(s, sep)` from a part that has begun.
unfoldable pub split_from : ℕ → String → String → List String
split_from sep cur [] = List.◌∷◌ cur List.[]
split_from sep cur (c ∷ s) =
    let closed = List.◌∷◌ cur (split_from sep "" s) in
    let longer = split_from sep (push cur c) s in if eqb (code c) sep then closed else longer

abbrev pub split : ℕ → String → List String
split sep s = split_from sep "" s

-- What stands before and behind the first separator, if there is one: `strings.Index` with the
-- slice before it, and `strings.SplitN(s, sep, 2)`.
unfoldable pub cut_from : ℕ → String → String → Option (String × String)
cut_from sep cur [] = none
cut_from sep cur (c ∷ s) =
    let longer = cut_from sep (push cur c) s in if eqb (code c) sep then some (cur, s) else longer

abbrev pub cut : ℕ → String → Option (String × String)
cut sep s = cut_from sep "" s

-- The characters that `strings.TrimSpace` removes.
unfoldable pub is_space : ℕ → Bool
is_space c =
    eqb c 32
    || (leb 9 c && leb c 13)
    || eqb c 0x85
    || eqb c 0xa0
    || eqb c 0x1680
    || (leb 0x2000 c && leb c 0x200a)
    || eqb c 0x2028
    || eqb c 0x2029
    || eqb c 0x202f
    || eqb c 0x205f
    || eqb c 0x3000

unfoldable pub trim_left : String → String
trim_left [] = []
trim_left (c ∷ s) = let rest = trim_left s in if is_space (code c) then rest else c ∷ s

abbrev is_nil : String → Bool
is_nil [] = true
is_nil (c ∷ s) = false

unfoldable pub trim_right : String → String
trim_right [] = []
trim_right (c ∷ s) =
    let rest = trim_right s in if is_space (code c) && is_nil rest then [] else c ∷ rest

abbrev pub trim_space : String → String
trim_space s = trim_right (trim_left s)
