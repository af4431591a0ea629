-- ===== src/Postgres/Filters.antt =====
-- The conditions that `QueryForReplay` and `ListTimeline` assemble
-- (internal/infrastructure/postgres/store.go): every placeholder stands for the argument that was
-- meant, so the statement selects what the filter says.
use mathlib.Core.List.{append_assoc, append-nil}
use nocturne_atlas_event_str.Prelude.{
  ◌++◌, ℕ, suc, ◌+◌, ◌-◌, String, ◌≡◌, refl, ◌∙◌, Bool, true, false, not, some, List, [], ◌∷◌, ◌==◌,
  arith, any, ◌&&◌, ◌||◌, if◌then◌else◌, Bool-cases, inl, inr, length, length-append,
  get_elem?-append,
}
use nocturne_atlas_event_str.Prelude.Int.{leb_ℤ}
use nocturne_atlas_event_str.Exec.{ok}
use nocturne_atlas_event_str.Domain.{Event, Time, is_zero, ReplayFilter}
use nocturne_atlas_event_str.Postgres.Sql.{
  Column, tenant, stream, correlation, kind, actor, column_of, Value, txt, time, Clause, equals,
  at_least, at_most, id_in, arg, holds, where_all, Builder, no_clause, add, add_if, add_ids,
}
use nocturne_atlas_event_str.Postgres.Queries.{
  clauses_by_ids, clauses_by_filter, replay_clauses, timeline_clauses, is_empty,
}

-- With any further arguments behind its own, the builder's clauses select by the test.
abbrev pub Selects : Builder → (Event → Bool) → Type 0
Selects b test =
    (b.arg_idx ≡ suc (length b.args))
    × ((extra : List Value) (e : Event) → where_all (b.args ++ extra) e b.clauses ≡ test e)

where_all-append :
    (args : List Value) (e : Event) (xs ys : List Clause)
    → where_all args e (xs ++ ys) ≡ (where_all args e xs && where_all args e ys)
unfolding where_all
where_all-append args e [] ys = refl
where_all-append args e (x ∷ xs) ys = ground (arith, where_all-append args e xs ys)

-- The clause tests the argument at its placeholder.
abbrev Compares : (ℕ → Clause) → Value → (Event → Bool) → Type 0
Compares clause v t =
    (args : List Value) (n : ℕ) (e : Event) → arg args n ≡ some v → holds args e (clause n) ≡ t e

equals-Compares : (c : Column) (s : String) → Compares (equals c) (txt s) (λ e. column_of e c == s)
unfolding holds
equals-Compares c s args n e h = rw h

at_least-Compares : (t : Time) → Compares at_least (time t) (λ e. leb_ℤ t e.occurred_at)
unfolding holds
at_least-Compares t args n e h = rw h

at_most-Compares : (t : Time) → Compares at_most (time t) (λ e. leb_ℤ e.occurred_at t)
unfolding holds
at_most-Compares t args n e h = rw h

-- The argument that was added is found at the placeholder's number.
pub arg_added :
    (args : List Value) (v : Value) (extra : List Value)
    → arg (args ++ v ∷ extra) (suc (length args)) ≡ some v
arg_added args v extra =
    let e : suc (length args) - 1 ≡ length args = omega arith in
    rw e (get_elem?-append args v extra)

no_clause-Selects : Selects no_clause (λ _. true)
unfolding where_all
no_clause-Selects = (refl, λ extra e. refl)

module _ (clause : ℕ → Clause) (v : Value) (t : Event → Bool) (cmp : Compares clause v t)
    (b : Builder) (test : Event → Bool) (h : Selects b test) where
  add-Selects : Selects (add clause v b) (λ e. test e && t e)
  unfolding add where_all
  add-Selects = (
    omega (arith, h.0, length-append b.args (v ∷ [])),
    λ extra e.
        rw (append_assoc b.args (v ∷ []) extra, where_all-append, h.1 (v ∷ extra) e, h.0)
          (rw (cmp _ _ e (arg_added b.args v extra)) (ground arith)),
  )

  add_if-Selects :
      (c : Bool) → Selects (add_if c clause v b) (λ e. test e && (if c then t e else true))
  unfolding add_if
  add_if-Selects true = add-Selects
  add_if-Selects false = (h.0, λ extra e. h.1 extra e ∙ ground arith)

any-append {ℓ} :
    {A : Type ℓ} (p : A → Bool) (xs ys : List A) → any p (xs ++ ys) ≡ (any p xs || any p ys)
any-append p [] ys = refl
any-append p (x ∷ xs) ys = ground (arith, any-append p xs ys)

-- The placeholders stand for the IDs, in a builder that has no clause yet.
abbrev Finds : List ℕ × Builder → List String → Type 0
Finds (ps, b) ids =
    (b.arg_idx ≡ suc (length b.args))
    × (b.clauses ≡ [])
    × ((extra : List Value) (e : Event)
        → holds (b.args ++ extra) e (id_in ps) ≡ any (λ i. e.id == i) ids)

add_ids-Finds :
    (ids : List String) (ps : List ℕ) (b : Builder) (seen : List String)
    → Finds (ps, b) seen
    → Finds (add_ids ids ps b) (seen ++ ids)
unfolding add_ids holds
add_ids-Finds [] ps b seen h = rw append-nil h
add_ids-Finds (id ∷ ids) ps b seen (idx, none_yet, found) = rw (← append_assoc seen (id ∷ []) ids) (
    add_ids-Finds ids (ps ++ b.arg_idx ∷ [])
      (record b { args = b.args ++ txt id ∷ []; arg_idx = b.arg_idx + 1 }) (seen ++ id ∷ [])
      (
        omega (arith, idx, length-append b.args (txt id ∷ [])),
        none_yet,
        λ extra e.
            rw
              (
                append_assoc b.args (txt id ∷ []) extra,
                any-append,
                any-append,
                found (txt id ∷ extra) e,
                idx,
                arg_added b.args (txt id) extra,
              )
              refl,
      ))

-- What a filter asks for, read off its documentation: IDs and the tenant, or the tenant and every
-- condition that is set.
abbrev pub is_set_and : Bool → Bool → Bool
is_set_and set test = if set then test else true

abbrev pub filter_matches : ReplayFilter → Event → Bool
filter_matches f e =
    if is_empty f.event_ids
    then (e.tenant_id == f.tenant_id)
      && is_set_and (not (f.stream_id == "")) (e.stream_id == f.stream_id)
      && is_set_and (not (f.correlation_id == "")) (e.correlation_id == f.correlation_id)
      && is_set_and (not (f.event_type == "")) (e.type == f.event_type)
      && is_set_and (not (f.actor_id == "")) (e.actor_id == f.actor_id)
      && is_set_and (not (is_zero f.from_time)) (leb_ℤ f.from_time e.occurred_at)
      && is_set_and (not (is_zero f.to_time)) (leb_ℤ e.occurred_at f.to_time)
    else any (λ i. e.id == i) f.event_ids
      && is_set_and (not (f.tenant_id == "")) (e.tenant_id == f.tenant_id)

Selects-ext :
    (b : Builder) (s t : Event → Bool) → Selects b s → ((e : Event) → s e ≡ t e) → Selects b t
Selects-ext b s t (i, h) same = (i, λ extra e. h extra e ∙ same e)

no_ids-Finds : Finds ([], no_clause) []
unfolding holds
no_ids-Finds = (refl, refl, λ extra e. refl)

id_in-selects :
    (ps : List ℕ) (b : Builder) (ids : List String)
    → Finds (ps, b) ids
    → (extra : List Value) (e : Event)
    → where_all (b.args ++ extra) e (b.clauses ++ id_in ps ∷ []) ≡ any (λ i. e.id == i) ids
unfolding where_all
id_in-selects ps b ids (idx, none_yet, found) extra e = rw (none_yet, found extra e) (ground arith)

clauses_by_ids-Selects :
    (f : ReplayFilter)
    → is_empty f.event_ids ≡ false
    → Selects (clauses_by_ids f) (filter_matches f)
unfolding clauses_by_ids
clauses_by_ids-Selects f h =
    let (ps, b) = add_ids f.event_ids [] no_clause in
    let found = add_ids-Finds f.event_ids [] no_clause [] no_ids-Finds in
    Selects-ext _ _ _
      (add_if-Selects (equals tenant) _ _ (equals-Compares tenant f.tenant_id)
        (record b { clauses = b.clauses ++ id_in ps ∷ [] }) (λ e. any (λ i. e.id == i) f.event_ids)
        (found.0, id_in-selects ps b f.event_ids found) _)
      (λ e. rw h)

clauses_by_filter-Selects :
    (f : ReplayFilter)
    → is_empty f.event_ids ≡ true
    → Selects (clauses_by_filter f) (filter_matches f)
unfolding clauses_by_filter
clauses_by_filter-Selects f h =
    Selects-ext _ _ _
      (add_if-Selects at_most _ _ (at_most-Compares f.to_time) _ _
        (add_if-Selects at_least _ _ (at_least-Compares f.from_time) _ _
          (add_if-Selects (equals actor) _ _ (equals-Compares actor f.actor_id) _ _
            (add_if-Selects (equals kind) _ _ (equals-Compares kind f.event_type) _ _
              (add_if-Selects (equals correlation) _ _
                (equals-Compares correlation f.correlation_id) _ _
                (add_if-Selects (equals stream) _ _ (equals-Compares stream f.stream_id) _ _
                  (add-Selects (equals tenant) _ _ (equals-Compares tenant f.tenant_id) _ _
                    no_clause-Selects)
                  _)
                _)
              _)
            _)
          _)
        _)
      (λ e. rw h)

-- The test that `QueryForReplay` makes before it asks the database.
abbrev pub is_scoped : ReplayFilter → Bool
is_scoped f = not (is_empty f.event_ids) || not (f.tenant_id == "")

pub replay_clauses-Selects :
    (f : ReplayFilter)
    → is_scoped f ≡ true
    → (b : Builder) × (replay_clauses f ≡ ok b) × Selects b (filter_matches f)
unfolding replay_clauses
replay_clauses-Selects f h = elim (Bool-cases (is_empty f.event_ids)) [
  | inl by_filter ↦
      (clauses_by_filter f, rw by_filter (ground arith), clauses_by_filter-Selects f by_filter)
  | inr by_ids ↦ (clauses_by_ids f, rw by_ids, clauses_by_ids-Selects f by_ids)
]

pub timeline_clauses-Selects :
    (t : String) (from to : Time)
    → Selects (timeline_clauses t from to) (λ e.
      (e.tenant_id == t)
      && is_set_and (not (is_zero from)) (leb_ℤ from e.occurred_at)
      && is_set_and (not (is_zero to)) (leb_ℤ e.occurred_at to))
unfolding timeline_clauses
timeline_clauses-Selects t from to =
    add_if-Selects at_most _ _ (at_most-Compares to) _ _
      (add_if-Selects at_least _ _ (at_least-Compares from) _ _
        (add-Selects (equals tenant) _ _ (equals-Compares tenant t) _ _ no_clause-Selects) _)
      _
