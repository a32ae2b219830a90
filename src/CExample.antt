-- ===== src/CExample.antt =====
-- examples/c: the program upsf_c_example, which creates, updates, reads, lists and deletes one item of each
-- kind with the calls of the C interface, and then subscribes. Its functions for the six kinds are
-- copies of one another but for what they write into the items. What an array on the stack holds
-- before it is written is a parameter.
pub mod Steps
pub mod Contents
pub mod Program
pub mod Outcome
pub mod Undefined
