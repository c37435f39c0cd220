-- ===== src/Tests.antt =====
-- Runs of the models on small inputs, and the theorems applied to them.
mod Captures
mod Frames
mod Controls
mod Counters
mod Filters
mod Messages
mod Programs
mod Rankings
mod States
