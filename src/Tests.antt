-- ===== src/Tests.antt =====
-- Examples: a small world, and every theorem that has hypotheses at a concrete input.
mod World
mod Jwt
mod Api
mod Index
mod Services
mod Stores
mod Streaming
mod Topics
mod Scripts
mod Startup
mod Tracing
mod Routes
mod Pipeline
mod Configured
mod Typing
mod Mains
mod Replays
