-- ===== src/Postgres/Order.antt =====
-- ORDER BY (the SELECT statements of internal/infrastructure/postgres/store.go): the rows are kept,
-- and come in order.
use mathlib.Core.List.{Perm}
use mathlib.Core.List.Perm
use nocturne_atlas_event_str.Prelude.{
  ◌≡◌, Bool, true, false, List, [], ◌∷◌, All, Bool-cases, inl, inr,
}
use nocturne_atlas_event_str.Domain.{Event}
use nocturne_atlas_event_str.Postgres.Sql.{place, order_by}

-- Every row comes before all later ones.
abbrev pub IsOrdered : (Event → Event → Bool) → List Event → Type 0
IsOrdered before [] = Unit
IsOrdered before (r ∷ rows) = All (λ x. before r x ≡ true) rows × IsOrdered before rows

module _ (before : Event → Event → Bool) where
  place-perm : (e : Event) (rows : List Event) → Perm (place before e rows) (e ∷ rows)
  unfolding place
  place-perm e [] = Perm.refl (e ∷ [])
  place-perm e (r ∷ rows) = elim (Bool-cases (before e r)) [
    | inl first ↦ rw first (Perm.refl _)
    | inr later ↦ rw later (Perm.trans (Perm.cons r (place-perm e rows)) (Perm.swap e r rows))
  ]

  -- Sorting neither drops nor repeats a row.
  pub order_by-perm : (rows : List Event) → Perm (order_by before rows) rows
  unfolding order_by
  order_by-perm [] = Perm.refl []
  order_by-perm (r ∷ rows) =
      Perm.trans (place-perm r (order_by before rows)) (Perm.cons r (order_by-perm rows))

  place-All :
      (P : Event → Type 0) (e : Event) (rows : List Event)
      → P e
      → All P rows
      → All P (place before e rows)
  unfolding place
  place-All P e [] p h = (p, tt)
  place-All P e (r ∷ rows) p (q, h) = elim (Bool-cases (before e r)) [
    | inl first ↦ rw first (p, (q, h))
    | inr later ↦ rw later (q, place-All P e rows p h)
  ]

  pub order_by-All :
      (P : Event → Type 0) (rows : List Event) → All P rows → All P (order_by before rows)
  unfolding order_by
  order_by-All P [] h = tt
  order_by-All P (r ∷ rows) (p, h) = place-All P r _ p (order_by-All P rows h)

module _ (before : Event → Event → Bool)
    (total : (a b : Event) → before a b ≡ false → before b a ≡ true)
    (trans : (a b c : Event) → before a b ≡ true → before b c ≡ true → before a c ≡ true) where
  All-before :
      (e r : Event) (rows : List Event)
      → before e r ≡ true
      → All (λ x. before r x ≡ true) rows
      → All (λ x. before e x ≡ true) rows
  All-before e r [] h k = tt
  All-before e r (x ∷ rows) h (p, k) = (trans e r x h p, All-before e r rows h k)

  place-IsOrdered :
      (e : Event) (rows : List Event)
      → IsOrdered before rows
      → IsOrdered before (place before e rows)
  unfolding place
  place-IsOrdered e [] h = (tt, tt)
  place-IsOrdered e (r ∷ rows) (a, h) = elim (Bool-cases (before e r)) [
    | inl first ↦ rw first ((first, All-before e r rows first a), (a, h))
    | inr later ↦ rw later (
      place-All before (λ x. before r x ≡ true) e rows (total e r later) a,
      place-IsOrdered e rows h,
    )
  ]

  pub order_by-IsOrdered : (rows : List Event) → IsOrdered before (order_by before rows)
  unfolding order_by
  order_by-IsOrdered [] = tt
  order_by-IsOrdered (r ∷ rows) = place-IsOrdered r _ (order_by-IsOrdered rows)
