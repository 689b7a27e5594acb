-- ===== src/Lib.antt =====
-- Verification of taningia, a C library for Atom over XMPP.
--
-- The library is built from a few small parts, which are modelled here, and from larger parts on
-- top of them. An object of the library starts with a reference count (src/object.c). Its texts
-- are C strings that it owns. A function that fails reports an error in the state of its thread
-- (src/error.c, include/taningia/global.h).
--
-- The files:
--   Base           numbers, lists, C strings as byte lists (Base/CString), and runs that may fault
--                  (Base/Run): a fault is a NULL or dangling pointer that is used, a second free,
--                  a read or write outside a block, or an overflow of an int.
--   Error          src/error.c: last = ta_error_last, clear = ta_error_clear, set_err, error_set =
--                  ta_error_set; report is error_set for the fixed messages of the parsers.
--   Object         src/object.c: init, ref and unref = ta_object_init, ta_object_ref,
--                  ta_object_unref.
--   Buf            src/buf.c: alloc, dealloc, cat, catf, vcatf, cstr, dump = ta_buf_ and the name;
--                  buf_realloc = _buf_realloc.
--   TaList         src/list.c: each function under its name without ta_list_; a loop is a function
--                  of that name with _from behind it. free_all = ta_list_free. TaList/Insert and
--                  TaList/Remove hold the functions that insert, remove and pop, TaList/Sort the
--                  merge sort, with its proofs below it.
--   Iri            src/iri.c, ta_iri_t: init, getters and setters; Iri/Print = ta_iri_to_string;
--                  Iri/Parse = ta_iri_set_from_string, parse being the part before its error
--                  report.
--   Tag            src/iri.c, ta_tag_t.
--   Atom           src/atom.c, the elements: Atom/SimpleElement, Atom/InReplyTo, Atom/Link,
--                  Atom/Category, Atom/Content and Atom/Person are ta_atom_ and that name,
--                  function by function, with the lists of Person on the heap of TaList; Atom
--                  holds what they share, the IRIs that are allocated and their reference
--                  counts; Atom/Xml is what they use of the XML tree library. Atom/Store holds
--                  the objects that entries and feeds list, by kind and address, and the loops
--                  over such lists; Atom/Entry and Atom/Feed are ta_atom_entry_ and
--                  ta_atom_feed_, with the element of an entry in Atom/Entry/Element.
--                  Atom/Load holds the memory in which they are loaded and the parts of an
--                  element (Atom/Load/Parts); Atom/Load/Entries and Atom/Load/Feeds are
--                  ta_atom_entry_set_from_iks and ta_atom_feed_set_from_iks, with
--                  load_child for the body of the loop, and the _set_from_file functions.
--   Log            src/log.c: the record and its accessors; Log/Layout is the text that _call_handler
--                  writes, Log/Emit the functions ta_log_info to ta_log_error, which share log_at.
--   Xmpp           src/xmpp.c: the client, the memory it uses, the calls it makes, and the libraries
--                  it runs on. Xmpp/Setup = ta_xmpp_client_init, _free and the accessors;
--                  Xmpp/Events = the hooks; Xmpp/Stanzas = what is sent, and the callbacks of the
--                  filter; Xmpp/Stream = connecting, and the callback of the stream (hook =
--                  _ta_xmpp_client_hook); Xmpp/Loop = ta_xmpp_client_run. Xmpp/Stability carries a
--                  predicate through the callback, for the theorems of the other files.
--   Pubsub         src/pubsub.c: createiq and createiqps; Pubsub/Nodes holds the stanzas under their
--                  names without ta_pubsub_, Pubsub/Config ta_pubsub_node_create and _createv.
--   Srv            src/srv.c: the targets and cmp_targets; the parts of ta_srv_query_domain: Srv/Answer =
--                  the reading of an answer, Srv/Choice = the choice by weights (arrange = the loop
--                  over the priorities, choose_group = the body of that loop, choose = one winner),
--                  Srv/Sorting = the sort and the choice, one after the other.
--   Thread         src/global.c: the state of a thread, in the build with a thread library.
--   Tests          runs at fixed inputs, and the theorems at inputs that meet their hypotheses.
--
-- How the parts meet: the IRI parser reports through Error, a tag is an IRI with three more texts,
-- and an IRI starts with an Object. Atom elements point at IRIs, whose references they count
-- through Object, and print them through Iri. The hook lists of the XMPP client are lists of TaList
-- in the heap of the client, its errors go to Error, and its messages have the levels of Log. The
-- callback of a stream runs inside a recv of the main loop, and calls the hooks, which may change
-- the client as any function of the user can.
--
-- Numbers and bounds. Sizes and lengths are natural numbers, and where the code computes an int
-- that may overflow, the overflow is a fault: the sizes of format_loop, the position of
-- ta_iri_to_string, the length of a path and the count of an object are such ints. Differences
-- of pointers that become a size_t wrap at 2^64. In Iri/Parse a string lies below the address
-- top, so that the size of the host can be computed from addresses as the code does it. Two
-- kinds of int stay inside their range and are natural numbers: the counters over the nodes of a
-- list in src/list.c, for lists of fewer than 2^30 nodes, and the sums of weights in src/srv.c,
-- since an answer of 1024 bytes has less than a hundred targets, with weights of 16 bits.
--
-- Fuel. A loop that is not structural runs on fuel: format_loop of Error needs a round for each
-- byte of the message and one more, grow of Buf a round for each byte requested, vcatf_loop one
-- round for each byte of the buffer and two more, the loops of TaList one round for each node
-- and one more, the loop over the hooks of an event and those over the lists of entries and
-- feeds the same. The main loop of the client has its own number of rounds, which runs out only
-- where the network never reports an error. ta_list_sort takes as many passes as there are
-- nodes, at most, and one merge as many rounds as its two parts have nodes. Theorems about these
-- functions give the fuel and show the result.
--
-- Parameters. In Error and Buf the allocator is a function that says which sizes it can give,
-- and elsewhere memory for nodes, elements and copies of texts is taken to be there; vsnprintf
-- is a function from the room to what it prints and returns; a comparison of list data is a
-- function; the XML tree library is a record of operations and laws (Atom/Xml for trees that are
-- built, Pubsub for a document behind pointers). The record Library of Xmpp holds the stream and
-- filter library, whose answers depend on the calls made before, the hash table with its laws,
-- and the functions of the user; the calls of the stream library and of the logger are recorded
-- in order. How a time is printed and read is a parameter of the elements of entries and feeds;
-- elements that are loaded come from a record of functions that look into them (Atom/Load). In
-- Log the time, and what a handler returns, are parameters, in Srv the function dn_expand and
-- the random numbers, scaled to a sum, and in Thread the thread library, with the laws of its
-- values. The memory of the texts of an IRI or tag is owned by its record, and the functions
-- that only free it are not modelled.
--
-- Not modelled: the functions _to_string and _to_file of src/atom.c, which call the XML library
-- on an element, and time_to_iso8601 and iso8601_to_time, which call gmtime, strptime and
-- mktime; the query of the name server in src/srv.c; the build of src/global.c without threads,
-- whose state is one static record; the functions _new, which allocate and initialise, and
-- ta_log_free; the trace of a stream in a build with DEBUG; src/hashtable.c and
-- src/hashtable-utils.c, copied from another project; the examples, the tests and the build.
pub mod Base
pub mod Error
pub mod Object
pub mod Buf
pub mod TaList
pub mod Iri
pub mod Tag
pub mod Atom
pub mod Log
pub mod Xmpp
pub mod Pubsub
pub mod Srv
pub mod Thread
pub mod Tests
