-- ===== src/OperatorModules.antt =====
-- Modules of operators that only use a workspace (libs/operator_modules_collection).
pub mod Delete
pub mod Copy
pub mod History
