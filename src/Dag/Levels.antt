-- ===== src/Dag/Levels.antt =====
-- `Levels` groups the nodes exactly by their dependencies, or shows a set of nodes on a cycle.
pub mod Checks
pub mod Rests
pub mod Rounds
pub mod Ranks
pub mod Verdicts
