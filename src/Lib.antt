-- ===== src/Lib.antt =====
-- libupsf is the client library of the UPSF, the function that keeps service gateways, their user
-- planes, traffic steering functions, network connections, shards and session contexts. Programs in
-- C++ call UpsfClient (upsf/upsf.hpp), which turns each call into a gRPC call of the server. Programs
-- in C call the functions of upsf/upsf.h, which upsf/upsf_c_wrapper.cpp implements: each finds the
-- slot of the calling thread, maps its structure to a message (upsf/upsf_c_mapping.cpp), calls the
-- client of the slot, and maps the answer back.
--
-- The files:
--   Text: upsf_string_t, a buffer of 64 bytes with a length, and strncpy, strlen and std::string on
--     it. A byte is a number. Reading a buffer without a terminating zero has no result.
--   Arrays: the arrays of 16 of upsf/upsf.h and the loops that fill and read them. A read behind the
--     end of an array has no result.
--   MapField: the map fields of messages. protobuf implements them, so assignment to an entry is a
--     parameter with the law that it writes that entry; the order of the entries stays open.
--   Messages: upsf/protos/wt474_upsf_messages/v1/messages_v1.proto, one record for each message. An
--     enumeration holds any integer, as in proto3. Strings are bytes.
--   Structs: the structures of upsf/upsf.h. A union holds the member that was written last, or the
--     zeros of memset; reading another member has no result.
--   Mapping: the overloads of UpsfMapping::map, `x_to_c` from a message to the structure, which is
--     cleared first, and `x_to_proto` from the structure into a message. A map to a message has no
--     result where the code reads something undefined. The log of truncated fields is left out.
--   RoundTrip: what comes back from a structure; `normalise_x` says it for each message, and Exact
--     says when it is the message itself.
--   WellFormed: the structures in which nothing undefined is read.
--   Service: upsf/protos/wt474_upsf_service/v1/service_v1.proto. A stub is a parameter: each of its
--     calls changes a world, about which nothing is assumed, and may fail. Service.Store describes a
--     server that stores items under their names, which some results take as a hypothesis, and
--     Service.Members the kinds of items.
--   Client: UpsfClient. Its calls are written once for all kinds of items, where the source has six
--     copies; Client.Overloads names the copies. Client.Reading says what a read finds in a stream, and
--     Client.Storing what the calls do with a server that stores items.
--   Slots: the map `upsf_slots` with upsf_open, upsf_close and upsf_exists. Its lock makes these one
--     step each; the calling thread is an argument.
--   Locks: the locks of the map of slots and of each slot, with the steps of any number of threads through
--     upsf_open, upsf_close, upsf_exists and the calls of a slot. Locks.Steps has the steps, Locks.Safety and
--     Locks.Progress what they keep and that they end.
--   Wrapper: the functions of the C interface that create, update, get, delete, list and look up,
--     again once for all kinds, and named for each kind below Wrapper.Exports. Wrapper.Runs
--     has sequences of calls by several threads with what they mean to the items of a server, and
--     Wrapper.Effects and Wrapper.Keeping show that they do it.
--   Subscriber: UpsfSubscriber, the read that serves it, and upsf_subscribe with its callbacks. What
--     the reader of the stream yields is a parameter. Subscriber.Objects has the other constructors, and
--     classes derived from UpsfSubscriber whose notify functions change the object.
--   Names: the tables of names of enumerators.
--   Printing: upsf/upsf_stream.hpp, `print_x` for the text of each message, and the upsf_dump functions
--     of upsf/upsf_c_wrapper.cpp. How protobuf prints a time is a parameter.
--   CppExample: examples/cpp, the class UpsfCppExample and its main. Action keeps the texts that the
--     program prints, and has no result where one is undefined; Steps has what the methods share, Methods the methods for each kind, Requests the
--     items that they send, Spec the tasks that the program carries out, and Effect what it does to the
--     items of a server. An item can be printed if no number in it reads in front of a table of names; a
--     server is asked to make no other items of such ones.
--   CExample: examples/c, the functions list_x, dump_x and test_x once for all kinds, the callbacks,
--     test_subscribe and main. What an array on the stack holds at first is a parameter; an action has no
--     result where the program reads something undefined.
--   Tests: runs, and a concrete case for each result.
--
-- All loops go over the items of a list or the elements of an array, so none needs fuel, except that
-- the digits of an int are printed with fuel 10, which is enough for an int of 32 bits: a number below
-- 10 ^ 10 has at most 10 digits.
--
-- Not modelled: logging, and what glog and gflags do when a program starts. A call of the server is one
-- step of the thread that makes it. The integers of a message are copied between
-- fields of 32 bits and never computed with, so they are integers without a bound here; a number of items
-- that a list call returns as an int wraps at 32 bits (Wrapper.to_int).
pub mod Prelude
pub mod Text
pub mod Arrays
pub mod MapField
pub mod Messages
pub mod Structs
pub mod Mapping
pub mod RoundTrip
pub mod WellFormed
pub mod Service
pub mod Client
pub mod Subscriber
pub mod Slots
pub mod Locks
pub mod Wrapper
pub mod Names
pub mod Printing
pub mod CppExample
pub mod CExample
pub mod Tests
