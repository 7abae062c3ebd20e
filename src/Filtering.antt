-- ===== src/Filtering.antt =====
-- internal/filtering/: the rules that answer a question before it is forwarded.
pub mod Rewrites
