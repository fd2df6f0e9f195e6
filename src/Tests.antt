-- ===== src/Tests.antt =====
-- Runs of the model at concrete data, and the theorems at inputs that meet their hypotheses.
mod Crates
mod System
mod ServerRuns
mod PipelineRuns
mod DataRuns
mod Site
mod InterleaveRuns
mod Host
mod Course
mod SystemRuns
mod HealthyRuns
