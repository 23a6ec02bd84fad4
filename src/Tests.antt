-- ===== src/Tests.antt =====
-- Runs of the theorems on concrete states.
mod Data
mod Processor
mod Timing
mod Arithmetic
mod CommandLine
mod Controllers
mod Runs
mod Programs
mod Procedures
mod Output
