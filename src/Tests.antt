-- ===== src/Tests.antt =====
-- Concrete runs: each theorem with hypotheses or parameters is applied to a small desk.
mod Desk
mod Domain
mod Store
mod Service
mod Shown
mod Gateway
mod Hardware
mod Provider
mod Migration
mod Agent
