-- ===== src/LogAnalyzer.antt =====
-- System Programming/HW4: a manager thread feeds the lines of a log file to worker threads through
-- a circular buffer, and the workers count the matches of a term.
pub mod Buffer
pub mod Search
pub mod Threads
mod Examples
