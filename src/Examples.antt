-- ===== src/Examples.antt =====
-- Runs on small inputs: a pipeline of two tasks, a graph, a retried task.
mod Pipelines
mod Graphs
mod Tasks
mod Matrices
mod References
mod Runs
mod Checks
mod Steps
mod Actions
mod Attempts
mod Backends
mod Endings
mod Fetches
mod Containers
