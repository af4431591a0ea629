-- ===== src/Query/Answers.antt =====
-- What the reads of internal/application/query/service.go are to return of the table: limits,
-- pages and single events, written out.
use nocturne_atlas_event_str.Prelude.{
  ℕ, zero, suc, ltb, take, drop, select, Bool-cases, inl, inr, String, ◌≡◌, refl, Option, none,
  some, List, [], ◌∷◌, ◌==◌, arith, if◌then◌else◌,
}
use nocturne_atlas_event_str.Prelude.Int.{ℤ, pos, negsuc}
use nocturne_atlas_event_str.Exec.{Result, ok, err, sentinel, not_found}
use nocturne_atlas_event_str.Domain.{Event, Identity}
use nocturne_atlas_event_str.Postgres.Table.{row_by_id}
use nocturne_atlas_event_str.Postgres.Pages.{page_of}
use nocturne_atlas_event_str.Query
use nocturne_atlas_event_str.Query.{clamp_limit, clamp_offset, screened}

-- The limit that is settled on: 20 where none is given, and at most 100.
abbrev pub limit_of : ℤ → ℕ
limit_of (pos zero) = 20
limit_of (pos (suc n)) = if ltb 100 (suc n) then 100 else suc n
limit_of (negsuc n) = 20

abbrev pub offset_of : ℤ → ℕ
offset_of (pos n) = n
offset_of (negsuc n) = 0

pub clamp_limit-pos : (given : ℤ) → clamp_limit given ≡ pos (limit_of given)
unfolding clamp_limit
clamp_limit-pos (pos zero) = ground arith
clamp_limit-pos (pos (suc n)) = elim (Bool-cases (ltb 100 (suc n))) [
  | inl above ↦ rw above (ground arith)
  | inr within ↦ rw within (ground arith)
]
clamp_limit-pos (negsuc n) = ground arith

pub clamp_offset-pos : (given : ℤ) → clamp_offset given ≡ pos (offset_of given)
unfolding clamp_offset
clamp_offset-pos (pos n) = ground arith
clamp_offset-pos (negsuc n) = ground arith

-- The results with a page of what matches, at a limit and an offset.
abbrev pub listed : ℕ → ℕ → List Event → Query.ListResult
listed limit offset matched = record {
  events = take limit (drop offset matched);
  total = (page_of limit offset matched).1;
  limit = pos limit;
  offset = pos offset;
  read_model = "postgres";
}

abbrev pub caused : String → ℕ → ℕ → List Event → Query.CausationResult
caused event_id limit offset matched = record {
  source_event_id = event_id;
  events = take limit (drop offset matched);
  total = (page_of limit offset matched).1;
  limit = pos limit;
  offset = pos offset;
}

abbrev pub timed : String → ℕ → ℕ → List Event → Query.TimelineResult
timed tenant_id limit offset matched = record {
  tenant_id = tenant_id;
  events = take limit (drop offset matched);
  total = (page_of limit offset matched).1;
  limit = pos limit;
  offset = pos offset;
}

abbrev pub first : List Event → Option Event
first [] = none
first (e ∷ _) = some e

-- The first event with the ID.
abbrev pub with_id : String → List Event → Option Event
with_id id rows = first (select (λ e. e.id == id) rows)

pub row_by_id-with_id : (id : String) (rows : List Event) → row_by_id id rows ≡ with_id id rows
unfolding row_by_id
row_by_id-with_id id [] = refl
row_by_id-with_id id (r ∷ rows) = elim (Bool-cases (r.id == id)) [
  | inl same ↦ rw same refl
  | inr other ↦ rw other (row_by_id-with_id id rows)
]

-- An event of another tenant is as absent as one that does not exist.
abbrev pub own_or_absent : Identity → Option Event → Result Event
own_or_absent caller none = err (sentinel not_found)
own_or_absent caller (some e) =
    if e.tenant_id == caller.tenant_id then ok e else err (sentinel not_found)
