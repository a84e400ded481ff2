-- ===== src/Wrap/Words.antt =====
-- Re-wrapping a line keeps its SQL words: the lines that it is wrapped into, read one after another,
-- have the words of the line.
pub mod Scan
pub mod Pack
pub mod Greedy
