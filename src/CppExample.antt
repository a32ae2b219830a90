-- ===== src/CppExample.antt =====
-- examples/cpp: the program upsf_cpp_example, which creates one item of each kind (two user planes)
-- and removes them again, with the calls of UpsfClient. Its methods are one set of six for each kind
-- of item, copies of one another but for the texts that they print and for two of them; the
-- steps that they share are in Steps, and the methods, with these differences, in Methods.
pub mod Lines
pub mod Action
pub mod Steps
pub mod Requests
pub mod Methods
pub mod Items
pub mod Spec
pub mod Effect
