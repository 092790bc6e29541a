-- ===== src/Tests.antt =====
-- Runs of the model at concrete inputs, and the theorems applied there: one child for each part.
mod Sorting
mod Vectors
mod Segments
mod Parsing
mod Files
mod Reclaiming
mod Selecting
mod Garbage
mod Daemon
mod Manual
mod Choosing
mod Policies
