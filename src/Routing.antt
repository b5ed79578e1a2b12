-- ===== src/Routing.antt =====
-- packages/runtime-core/src/events/event-service.ts and routing/routing-service.ts: events get
-- their place in a stream, and commands and events become deliveries.
pub mod Events
pub mod Deliver
pub mod Replay
pub mod Sequences
