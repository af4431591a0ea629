-- ===== src/Domain.antt =====
-- The domain of the program: internal/domain/event, internal/application/auth/identity.go and the
-- request context of internal/pkg/trace.
mod Events
mod Contexts
mod Ports
mod Laws
pub use Events.{Time, is_zero, Metadata, or_empty, Event, set_version, ReplayFilter, SearchQuery}
unfoldable pub use Events.{new_event}
pub use Contexts.{
  Identity, TraceContext, no_trace, Context, background, with_identity, identity_from_context,
  with_correlation_id, from_context, with_trace_context, trace_context_from_context,
  trace_id_from_context, coalesce, tenant_of,
}
pub use Ports.{Runtime, Store, Publisher, Indexer, Searcher, required_identity}
pub use Laws.{Appended, Contracts}
unfoldable pub use Laws.{knows}
