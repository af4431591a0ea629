-- ===== src/Domain/Contexts.antt =====
-- The values that a request context carries: the identity (internal/application/auth/identity.go),
-- the correlation ID and the W3C trace context (internal/pkg/trace/trace.go).
use nocturne_atlas_event_str.Prelude.{
  String, Bool, false, Option, none, some, List, ◌==◌, if◌then◌else◌,
}

pub record Identity : Type 0 where
  pub subject_id : String
  pub tenant_id : String
  pub roles : List String

pub record TraceContext : Type 0 where
  pub trace_id : String
  pub parent_span_id : String
  pub sampled : Bool

-- The zero value.
abbrev pub no_trace : TraceContext
no_trace = record { trace_id = ""; parent_span_id = ""; sampled = false }

-- An absent correlation ID reads as "", an absent trace context as the zero value.
pub record Context : Type 0 where
  pub identity : Option Identity
  pub correlation_id : String
  pub trace_context : TraceContext

-- `context.Background()`
abbrev pub background : Context
background = record { identity = none; correlation_id = ""; trace_context = no_trace }

abbrev pub with_identity : Context → Identity → Context
with_identity ctx id = record ctx { identity = some id }

abbrev pub identity_from_context : Context → Option Identity
identity_from_context ctx = ctx.identity

abbrev pub with_correlation_id : Context → String → Context
with_correlation_id ctx id = record ctx { correlation_id = id }

abbrev pub from_context : Context → String
from_context ctx = ctx.correlation_id

-- `Coalesce`
abbrev pub coalesce : Context → String → String
coalesce ctx fallback = let id = from_context ctx in if id == "" then fallback else id

abbrev pub with_trace_context : Context → TraceContext → Context
with_trace_context ctx tc = record ctx { trace_context = tc }

abbrev pub trace_context_from_context : Context → TraceContext
trace_context_from_context ctx = ctx.trace_context

abbrev pub trace_id_from_context : Context → String
trace_id_from_context ctx = (trace_context_from_context ctx).trace_id

-- The test `!ok || identity.TenantID == ""` that opens every service method: the identity, if it
-- names a tenant.
abbrev pub tenant_of : Option Identity → Option Identity
tenant_of none = none
tenant_of (some id) = if id.tenant_id == "" then none else some id
