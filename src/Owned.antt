-- ===== src/Owned.antt =====
-- The functions of src/pmu-events.c that allocate, as actions on a memory: each block that they
-- allocate, use, free, hand to their caller or lose, besides what they compute.
pub mod Commas
pub mod Range
pub mod Assign
pub mod Files
pub mod Grow
pub mod Attr
pub mod Instances
pub mod Pmus
pub mod Balance
