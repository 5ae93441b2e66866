-- ===== src/Tests.antt =====
-- Runs of the model at concrete inputs, and the theorems applied there.
mod Samples
mod Plans
mod Verification
mod Adapter
mod Agents
mod Cohorts
mod Registration
mod Host
mod Hosting
mod Recipes
mod Recordings
