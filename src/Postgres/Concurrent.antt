-- ===== src/Postgres/Concurrent.antt =====
-- Several connections running `Append` at once (internal/infrastructure/postgres/store.go): each
-- INSERT reads its snapshot when it begins and adds its row later; in between others commit.
use mathlib.Core.List.{append_assoc}
use nocturne_atlas_event_str.Prelude.{
  ◌-◌, ◌^◌, ◌≡◌, refl, sym, ◌∙◌, ap, List, [], ◌∷◌, ◌++◌, All, Option-cases, inl, inr, Bool-cases,
}
use nocturne_atlas_event_str.Prelude.Int.{ℤ, pos, ltb_ℤ}
use nocturne_atlas_event_str.Domain.{Event, set_version}
use nocturne_atlas_event_str.Postgres.Table.{
  row_by_id, next_version, has_version, add_row, insert_event,
}
use nocturne_atlas_event_str.Postgres.Versions.{IsNumbered, insert_event-IsNumbered}

-- The table, and the INSERT statements that have begun, each with its snapshot.
pub record Server : Type 0 where
  pub rows : List Event
  pub pending : List (List Event × Event)

pub data Step : Server → Server → Type 0 where
  begins : (sv : Server) (e : Event) → Step sv (record sv { pending = (sv.rows, e) ∷ sv.pending })
  inserts :
      (sv : Server) (others more : List (List Event × Event)) (snapshot : List Event) (e : Event)
      → sv.pending ≡ others ++ (snapshot, e) ∷ more
      → Step sv (record { rows = (insert_event snapshot e sv.rows).1; pending = others ++ more })
  aborts :
      (sv : Server) (others more : List (List Event × Event)) (p : List Event × Event)
      → sv.pending ≡ others ++ p ∷ more
      → Step sv (record sv { pending = others ++ more })

pub data Reach (sv : Server) : Server → Type 0 where
  here : Reach sv sv
  next : {t u : Server} → Reach sv t → Step t u → Reach sv u

abbrev pub empty_server : Server
empty_server = record { rows = []; pending = [] }

-- The rows of the snapshot are still there, behind newer ones.
abbrev IsPast : List Event → List Event × Event → Type 0
IsPast rows p = (newer : List Event) × (rows ≡ newer ++ p.0)

abbrev IsSound : Server → Type 0
IsSound sv = IsNumbered sv.rows × All (IsPast sv.rows) sv.pending

All-parts {ℓ κ} :
    {A : Type ℓ} (P : A → Type κ) (xs ys : List A) (y : A)
    → All P (xs ++ y ∷ ys)
    → P y × All P (xs ++ ys)
All-parts P [] ys y h = h
All-parts P (x ∷ xs) ys y (p, h) = let (q, k) = All-parts P xs ys y h in (q, (p, k))

All-map {ℓ κ ν} :
    {A : Type ℓ} {P : A → Type κ} {Q : A → Type ν} (f : (x : A) → P x → Q x) (xs : List A)
    → All P xs
    → All Q xs
All-map f [] h = tt
All-map f (x ∷ xs) (p, h) = (f x p, All-map f xs h)

-- Rows are added in front of the old ones.
abbrev Grows : List Event → List Event → Type 0
Grows rows rows' = (newer : List Event) × (rows' ≡ newer ++ rows)

add_row-Grows : (v : ℤ) (e : Event) (rows : List Event) → Grows rows (add_row v e rows).1
unfolding add_row
add_row-Grows v e rows = elim (Bool-cases (ltb_ℤ (pos (2 ^ 63 - 1)) v)) [
  | inl big ↦ ([], rw big)
  | inr fits ↦ elim (Bool-cases (has_version e.stream_id v rows)) [
    | inl taken ↦ ([], rw (fits, taken))
    | inr free ↦ (set_version e v ∷ [], rw (fits, free))
  ]
]

insert_event-Grows :
    (snapshot : List Event) (e : Event) (rows : List Event)
    → Grows rows (insert_event snapshot e rows).1
unfolding insert_event
insert_event-Grows snapshot e rows = elim (Option-cases (row_by_id e.id rows)) [
  | inl new ↦ rw (new, insert_event) (add_row-Grows (next_version e.stream_id snapshot) e rows)
  | inr (old, found) ↦ ([], rw (found, insert_event))
]

IsPast-Grows :
    {rows rows' : List Event} (p : List Event × Event)
    → Grows rows rows'
    → IsPast rows p
    → IsPast rows' p
IsPast-Grows p (newer, e) (older, q) =
    (newer ++ older, e ∙ ap (λ (l : List Event). newer ++ l) q ∙ sym (append_assoc newer older p.0))

Step-IsSound : {t u : Server} → Step t u → IsSound t → IsSound u
Step-IsSound (begins sv e) (n, p) = (n, (([], refl), p))
Step-IsSound (aborts sv others more p e) (n, h) =
    (n, (All-parts (IsPast sv.rows) others more p (rw e at h)).1)
Step-IsSound (inserts sv others more snapshot e q) (n, h) =
    let (past, rest) = All-parts (IsPast sv.rows) others more (snapshot, e) (rw q at h) in
    let (newer, shape) = past in
    (
      rw shape (insert_event-IsNumbered newer snapshot e (rw shape at n)),
      All-map (λ p. IsPast-Grows p (insert_event-Grows snapshot e sv.rows)) _ rest,
    )

-- From an empty table, any interleaving of any number of INSERT statements, finished or aborted,
-- leaves every stream numbered from 1 with no gap and no version twice, and no UUID twice.
pub appends-IsNumbered : (sv : Server) → Reach empty_server sv → IsNumbered sv.rows
appends-IsNumbered sv r = (go r).0
  where
    go : {u : Server} → Reach empty_server u → IsSound u
    go here = (tt, tt)
    go (next r st) = Step-IsSound st (go r)
