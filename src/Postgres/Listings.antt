-- ===== src/Postgres/Listings.antt =====
-- The listings by correlation and by causation (internal/infrastructure/postgres/store.go), as
-- `list_timeline_exact` states it of the timeline.
use mathlib.Core.Path.{fun_ext}
use nocturne_atlas_event_str.Prelude.{
  ℕ, ◌≤◌, String, ◌≡◌, refl, ap, ◌∙◌, Bool, true, List, [], ◌∷◌, ◌&&◌, ◌==◌, arith, All, All-take,
  All-drop, length, length-take, drop, select, Bool-cases, inl, inr,
}
use nocturne_atlas_event_str.Prelude.Int.{pos}
use nocturne_atlas_event_str.Exec.{ok}
use nocturne_atlas_event_str.Domain.{Event}
use nocturne_atlas_event_str.Postgres.Sql.{
  tenant, correlation, causation, equals, where_all, holds, occurred_asc, occurred_desc, order_by,
}
use nocturne_atlas_event_str.Postgres.Queries.{
  select_where, list_by_correlation_id, list_by_causation_id,
}
use nocturne_atlas_event_str.Postgres.Order.{order_by-All}
use nocturne_atlas_event_str.Postgres.Pages.{rows_in, page_of, list_with_count_lem}

abbrev pub is_correlated : String → String → Event → Bool
is_correlated tenant_id id e = (e.tenant_id == tenant_id) && (e.correlation_id == id)

abbrev pub is_caused : String → String → Event → Bool
is_caused tenant_id id e = (e.tenant_id == tenant_id) && (e.causation_id == id)

pub list_by_correlation_id_lem :
    (tenant_id id : String) (limit offset : ℕ) (rows : List Event)
    → list_by_correlation_id tenant_id id (pos limit) (pos offset) rows
      ≡ ok (page_of limit offset (rows_in occurred_desc (is_correlated tenant_id id) rows))
unfolding list_by_correlation_id select_where where_all holds
list_by_correlation_id_lem tenant_id id limit offset rows =
    list_with_count_lem (equals tenant 1 ∷ equals correlation 2 ∷ []) occurred_desc 3 4 limit offset
      _ rows refl refl
    ∙ ap (λ (p : Event → Bool). ok (page_of limit offset (order_by occurred_desc (select p rows))))
        (fun_ext (λ e. ground arith))

pub list_by_causation_id_lem :
    (tenant_id id : String) (limit offset : ℕ) (rows : List Event)
    → list_by_causation_id tenant_id id (pos limit) (pos offset) rows
      ≡ ok (page_of limit offset (rows_in occurred_asc (is_caused tenant_id id) rows))
unfolding list_by_causation_id select_where where_all holds
list_by_causation_id_lem tenant_id id limit offset rows =
    list_with_count_lem (equals tenant 1 ∷ equals causation 2 ∷ []) occurred_asc 3 4 limit offset _
      rows refl refl
    ∙ ap (λ (p : Event → Bool). ok (page_of limit offset (order_by occurred_asc (select p rows))))
        (fun_ext (λ e. ground arith))

pub select-All :
    (P : Event → Type 0) (test : Event → Bool)
    → ((e : Event) → test e ≡ true → P e)
    → (rows : List Event) → All P (select test rows)
select-All P test h [] = tt
select-All P test h (r ∷ rows) = elim (Bool-cases (test r)) [
  | inl passes ↦ rw passes (h r passes, select-All P test h rows)
  | inr fails ↦ rw fails (select-All P test h rows)
]

-- What all selected rows have, the rows of a page have; and there are no more of them than asked
-- for.
pub page_of-All :
    (P : Event → Type 0) (before : Event → Event → Bool) (test : Event → Bool)
    → ((e : Event) → test e ≡ true → P e)
    → (limit offset : ℕ) (rows : List Event)
    → All P (page_of limit offset (rows_in before test rows)).0
      × (length (page_of limit offset (rows_in before test rows)).0 ≤ limit)
page_of-All P before test h limit offset rows = (
  All-take P limit _ (All-drop P offset _ (order_by-All before P _ (select-All P test h rows))),
  omega (arith, length-take limit (drop offset (rows_in before test rows))),
)
