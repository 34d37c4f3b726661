-- ===== src/Examples.antt =====
-- Tests: the program on small inputs, and the theorems at inputs that meet their hypotheses.
mod Rollouts
mod Evaluation
mod Nesting
mod Serving
mod Storing
mod Racing
mod Requesting
mod Reporting
mod Streaming
mod Targets
mod Caching
mod Starting
mod Older
