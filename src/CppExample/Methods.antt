-- ===== src/CppExample/Methods.antt =====
-- The methods of UpsfCppExample for each kind of item.
pub mod Gateways
pub mod Sessions
