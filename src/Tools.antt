-- ===== src/Tools.antt =====
-- The tools on the command line (tools).
pub mod Log
