-- ===== src/CppExample/Effect.antt =====
-- What the methods of UpsfCppExample do to the items of a server that stores items: each method sets or
-- removes what is stored under its own name and leaves the rest.
pub mod Runs
pub mod Printable
pub mod Steps
pub mod Create
pub mod Refines
pub mod Gateways
pub mod Sessions
pub mod Items
pub mod Cleanup
