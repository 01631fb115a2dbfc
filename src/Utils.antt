-- ===== src/Utils.antt =====
-- headers/Utils.h and Core/Utils.cpp: `split`, and the checked arguments of a connection.
pub mod Split
pub mod Arguments
pub mod ArgumentRules
