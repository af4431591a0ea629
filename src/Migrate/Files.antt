-- ===== src/Migrate/Files.antt =====
-- Which files cmd/migrate/main.go goes through, and in which order: `strings.HasSuffix` and
-- `sort.Strings`, described without them.
use Prim.Native.Nat.{Ordering, compare as compare_ℕ}
use Prim.Native.Nat.compare as compare_ℕ
use Prim.Native.Char.{code}
use Prim.Native.String
use Prim.Native.String.compare
use package.text.Mathlib.Text.{is_lt}
use text.Mathlib.TextLemmas.{nil-append, cons-append}
use nocturne_atlas_event_str.Prelude.{
  ℕ, zero, suc, String, ◌≡◌, ◌≢◌, refl, sym, ap, ◌∙◌, true, false, List, [], ◌∷◌, ◌==◌, eq_iff,
  arith, Bool-cases, inl, inr, if◌then◌else◌,
}
use nocturne_atlas_event_str.Migrate.{has_suffix, sql_files, insert_name, sort_names}

-- The text ends in the suffix.
abbrev pub EndsIn : String → String → Type 0
EndsIn suffix s = (stem : String) × (s ≡ String.◌++◌ stem suffix)

has_suffix-EndsIn : (suffix s : String) → has_suffix suffix s ≡ true → EndsIn suffix s
unfolding has_suffix
has_suffix-EndsIn suffix String.[] h = ("", sym (nil-append suffix ∙ (eq_iff suffix "").0 h))
has_suffix-EndsIn suffix (String.◌∷◌ c s) h = elim (Bool-cases (suffix == String.◌∷◌ c s)) [
  | inl same ↦ ("", sym (nil-append suffix ∙ (eq_iff suffix (String.◌∷◌ c s)).0 same))
  | inr other ↦
      let (stem, e) = has_suffix-EndsIn suffix s (rw other at h) in
      (String.◌∷◌ c stem, ap (λ t. String.◌∷◌ c t) e ∙ sym (cons-append c stem suffix))
]

itself : (s : String) → has_suffix s s ≡ true
unfolding has_suffix
itself String.[] = refl
itself (String.◌∷◌ c s) =
    let same = (eq_iff (String.◌∷◌ c s) (String.◌∷◌ c s)).1 refl in ground arith

has_suffix-append : (suffix stem : String) → has_suffix suffix (String.◌++◌ stem suffix) ≡ true
unfolding has_suffix
has_suffix-append suffix String.[] = rw (nil-append suffix) (itself suffix)
has_suffix-append suffix (String.◌∷◌ c stem) =
    rw (cons-append c stem suffix) (ground (arith, has_suffix-append suffix stem))

-- How often a name is in a list.
abbrev pub occurs : String → List String → ℕ
occurs name [] = 0
occurs name (x ∷ xs) = if x == name then suc (occurs name xs) else occurs name xs

-- No name stands before a smaller one.
abbrev pub IsSorted : List String → Type 0
IsSorted [] = Unit
IsSorted (a ∷ []) = Unit
IsSorted (a ∷ b ∷ names) = (is_lt (String.compare b a) ≡ false) × IsSorted (b ∷ names)

-- The names are the directory's SQL files, each as often as there, sorted.
pub record SqlFiles (entries names : List String) : Type 0 where
  pub sorted : IsSorted names
  pub all : (name : String) → EndsIn ".sql" name → occurs name names ≡ occurs name entries
  pub only : (name : String) → occurs name names ≢ 0 → EndsIn ".sql" name

occurs-insert_name :
    (name x : String) (names : List String)
    → occurs name (insert_name x names) ≡ occurs name (x ∷ names)
unfolding insert_name
occurs-insert_name name x [] = refl
occurs-insert_name name x (y ∷ names) = ground (arith, occurs-insert_name name x names)

occurs-sort_names :
    (name : String) (names : List String) → occurs name (sort_names names) ≡ occurs name names
unfolding sort_names
occurs-sort_names name [] = refl
occurs-sort_names name (x ∷ names) =
    occurs-insert_name name x (sort_names names) ∙ ground (arith, occurs-sort_names name names)

occurs-sql_files :
    (name : String) (entries : List String)
    → occurs name (sql_files entries) ≡ (if has_suffix ".sql" name then occurs name entries else 0)
unfolding sql_files
occurs-sql_files name [] = ground arith
occurs-sql_files name (x ∷ entries) = elim (Bool-cases (x == name)) [
  | inl same ↦
      let e : x ≡ name = (eq_iff x name).0 same in
      ground (arith, occurs-sql_files name entries, ap (has_suffix ".sql") e)
  | inr other ↦ ground (arith, occurs-sql_files name entries)
]

abbrev flip : Ordering → Ordering
flip Ordering.lt = Ordering.gt
flip Ordering.eq = Ordering.eq
flip Ordering.gt = Ordering.lt

flip-compare_ℕ : (a b : ℕ) → compare_ℕ b a ≡ flip (compare_ℕ a b)
flip-compare_ℕ zero zero = compare_ℕ.zero-zero ∙ sym (ap flip compare_ℕ.zero-zero)
flip-compare_ℕ zero (suc b) = compare_ℕ.suc-zero b ∙ sym (ap flip (compare_ℕ.zero-suc b))
flip-compare_ℕ (suc a) zero = compare_ℕ.zero-suc a ∙ sym (ap flip (compare_ℕ.suc-zero a))
flip-compare_ℕ (suc a) (suc b) =
    compare_ℕ.suc-suc b a ∙ flip-compare_ℕ a b ∙ sym (ap flip (compare_ℕ.suc-suc a b))

flip-then : (o p : Ordering) → String.then (flip o) (flip p) ≡ flip (String.then o p)
flip-then Ordering.lt p = refl
flip-then Ordering.eq p = refl
flip-then Ordering.gt p = refl

flip-compare : (s t : String) → String.compare t s ≡ flip (String.compare s t)
flip-compare String.[] String.[] = compare.nil-nil ∙ sym (ap flip compare.nil-nil)
flip-compare String.[] (String.◌∷◌ d t) =
    compare.cons-nil d t ∙ sym (ap flip (compare.nil-cons d t))
flip-compare (String.◌∷◌ c s) String.[] =
    compare.nil-cons c s ∙ sym (ap flip (compare.cons-nil c s))
flip-compare (String.◌∷◌ c s) (String.◌∷◌ d t) =
    let codes = flip-compare_ℕ (code c) (code d) in
    let rest = flip-compare s t in
    compare.cons-cons d c t s
    ∙ ap (λ o. String.then o (String.compare t s)) codes
    ∙ ap (λ o. String.then (flip (compare_ℕ (code c) (code d))) o) rest
    ∙ flip-then (compare_ℕ (code c) (code d)) (String.compare s t)
    ∙ sym (ap flip (compare.cons-cons c d s t))

not_after : (o : Ordering) → is_lt o ≡ true → is_lt (flip o) ≡ false
not_after Ordering.lt h = refl
not_after Ordering.eq h = refl
not_after Ordering.gt h = ground arith

is_lt-compare :
    (s t : String) → is_lt (String.compare s t) ≡ true → is_lt (String.compare t s) ≡ false
is_lt-compare s t h = ap is_lt (flip-compare s t) ∙ not_after (String.compare s t) h

-- Putting a name after a first one that is not greater keeps the order.
insert_after :
    (first name : String) (names : List String)
    → is_lt (String.compare name first) ≡ false
    → IsSorted (first ∷ names)
    → IsSorted (insert_name name names)
    → IsSorted (first ∷ insert_name name names)
unfolding insert_name
insert_after first name [] after h later = (after, tt)
insert_after first name (x ∷ names) after h later =
    elim (Bool-cases (is_lt (String.compare x name))) [
      | inl less ↦ rw less (h.0, rw less at later)
      | inr more ↦ rw more (after, rw more at later)
    ]

tail-IsSorted : (x : String) (names : List String) → IsSorted (x ∷ names) → IsSorted names
tail-IsSorted x [] h = tt
tail-IsSorted x (y ∷ names) h = h.1

insert_name-IsSorted :
    (name : String) (names : List String) → IsSorted names → IsSorted (insert_name name names)
unfolding insert_name
insert_name-IsSorted name [] h = tt
insert_name-IsSorted name (x ∷ names) h = elim (Bool-cases (is_lt (String.compare x name))) [
  | inl less ↦
      let later = insert_name-IsSorted name names (tail-IsSorted x names h) in
      rw less (insert_after x name names (is_lt-compare x name less) h later)
  | inr more ↦ rw more (more, h)
]

sort_names-IsSorted : (names : List String) → IsSorted (sort_names names)
unfolding sort_names
sort_names-IsSorted [] = tt
sort_names-IsSorted (name ∷ names) =
    insert_name-IsSorted name (sort_names names) (sort_names-IsSorted names)

pub sql_files-SqlFiles : (entries : List String) → SqlFiles entries (sort_names (sql_files entries))
sql_files-SqlFiles entries = record {
  sorted = sort_names-IsSorted (sql_files entries);
  all = λ name (stem, e).
      let sql = ap (has_suffix ".sql") e ∙ has_suffix-append ".sql" stem in
      occurs-sort_names name (sql_files entries) ∙ occurs-sql_files name entries ∙ rw sql refl;
  only = λ name some. elim (Bool-cases (has_suffix ".sql" name)) [
    | inl sql ↦ has_suffix-EndsIn ".sql" name sql
    | inr other ↦ absurd (
        some (
          occurs-sort_names name (sql_files entries)
          ∙ occurs-sql_files name entries
          ∙ rw other refl))
  ];
}
