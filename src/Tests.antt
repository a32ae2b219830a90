-- ===== src/Tests.antt =====
-- Runs of the model and concrete cases of its theorems.
pub mod Samples
mod Keeper
pub mod Texts
pub mod RoundTrips
pub mod Readable
pub mod Calls
pub mod Threads
pub mod Storing
pub mod Printing
pub mod Locked
pub mod Program
pub mod CProgram
