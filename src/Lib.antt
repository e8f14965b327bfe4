-- ===== src/Lib.antt =====
-- Cetus is a proxy for MySQL: clients speak the MySQL protocol to it, and it sends their statements to
-- backend groups. This library models the core of its sharding version, as functions that can be run, and
-- proves what makes them correct.
--
-- The parts, and how they work together. A chunk that a socket has read goes into a queue
-- (src/network-queue.c). Packets are read from the queue's bytes, and written, by the wire format
-- (src/network-mysqld-proto.c), which also answers a server's challenge with a password's scramble. Who may
-- connect is decided by two lists of rules (src/cetus-acl.c). A statement is parsed into a tree, and the
-- condition of its WHERE clause selects partitions (plugins/shard/sharding-parser.c) among those that the
-- configuration has defined (src/sharding-config.c), which also knows the tables that are sharded. The groups
-- of these partitions, and the SQL that each gets, make the query plan (src/sharding-query-plan.c). It is
-- sent over connections that wait in the pool of each backend (src/network-conn-pool.c), and the rows that
-- come back are merged (src/resultset_merge.c): ordered, summed up, and filtered again.
--
-- The files.
--   Common.antt and Common/: names and lemmas that the parts share. Tests and Lists have Boolean tests and
--     lists on the native numbers, Words wrap-around and bitwise operations, Int signed integers, Bytes
--     equality of byte strings.
--   Wire.antt and Wire/: src/network-mysqld-proto.c and .h. Packet is network_packet with the three ways in
--     which a call ends: it returns 0, it returns -1, or it does not return. Decode and Strings have the
--     readers, Encode the writers, Auth the password functions; a function has the name of its C function
--     less network_mysqld_proto_. Words, Lenenc, Fixed, Typed, Text, Header, Integers, Bounds and Login have the
--     proofs.
--   Queue.antt and Queue/: src/network-queue.c and .h. Stream has the queue and its operations; Cuts, Fifo,
--     Peek and Pop have the proofs.
--   Shard.antt and Shard/: Partition, Setup and Parse model src/sharding-config.c, from the JSON object to
--     partitions with their bounds; Hash, Condition, Filter and Where model plugins/shard/sharding-parser.c
--     from cetus_str_hash to partitions_filter_expr, sql_expr_get_int of lib/sql-expression.c, and
--     chassis_epoch_from_string of src/chassis-timings.c, whose int keeps 32 bits of the time. Rows is the
--     specification: what value a constant has, what a condition means for a row, and which partition holds
--     the row. The other modules have the proofs; Literal is about the constants.
--   Conf.antt and Conf/: the tables and groups of src/sharding-config.c. Tables has the static variables and
--     the operations on them, Loaded the proofs.
--   Plan.antt and Plan/: src/sharding-query-plan.c and .h. State has the plan and its operations, Mapping and
--     Invariant the proofs.
--   Acl.antt and Acl/: src/cetus-acl.c and .h. Rules has the lists and their operations, Lists and Verify the
--     proofs.
--   Pool.antt and Pool/: src/network-conn-pool.c and .h. State has the pool and its operations; Users, Get,
--     Invariant and RoundTrip have the proofs.
--   Merge.antt and Merge/: src/resultset_merge.c. Digits, Compare, Aggregate, Record and Having have the
--     arithmetic and the order of decimal strings, the aggregates of two columns and the HAVING condition.
--     Value says which number a string of digits denotes, Numeral and Signed what a numeral is; Addition,
--     Subtraction, Absolute, Difference, Sum, Padding and Decimal prove the sums, Comparison, Prior and Prefix
--     the order. Columns and Order have the order of two rows, with the cache of offsets, which Cache is about.
--     Heap has heap_adjust, and Heap/ its proof: the order around the element that goes down (Order), the
--     choice of the child (Siblings, Pick), one round (Sift, Place) and the loop (Adjust, and Ends for any
--     order). Sort has create_heap_for_merge_sort, Sort/Fill and Create its proof; Sort/Loop has do_sort_merge,
--     which calls heap_adjust for every row. Round has the states between two rounds and behind a wait; Next,
--     Minimum, Settle, Step, Output, Take, Refill, Taking and Merging one round; Linked, Pending, Rounds and
--     Ends the whole loop.
-- Each part but Common has a module Tests, with runs on small inputs.
--
-- How the code is modelled. Machine integers are natural numbers with the wrap-around of their width written
-- out; int64_t values are the integers of Common/Int. A GString is the list of its bytes. A pointer that may
-- be NULL is an Option. A mutated object is a state that a function takes and returns. Where C leaves an
-- access undefined, or an assertion fails, the model says so with a value of its own (fault, aborted, none).
-- The loop of partitions_filter_expr runs on fuel, one more than the number of nodes of the clause, each of
-- which it visits once. Strings of digits are ASCII: a byte above 127, which a char makes negative, does not
-- occur in them. An address of a link in a pool's queue, or of an element of the heap, is a number. The loop of heap_adjust runs on fuel,
-- the length of the heap: its index at least doubles;
-- that of do_sort_merge on one more than the packets that have been read, one of which it takes in a round. All other loops are recursion on the structure that they walk over.
--
-- Parameters stand for code that is not in the repository: SHA1, the sort of an array, the reading of numbers
-- and dates by glib and libc, the comparison of prefixes that ignores ASCII case, the split at commas, the order in which a hash table
-- visits its entries, and the room that glib gives a new string. Where a theorem rests on what glib documents
-- of one of them, that is a hypothesis.
--
-- Not modelled: the walk over whole statements (plugins/shard/sharding-parser.c from the routing of SELECT on),
-- the loading of the whole configuration, the groups of merged results, the merge without ORDER BY, the backends, and the
-- state machines of connections and distributed transactions. send_part_content_to_client is only noted in the output of a merge, and the events for
-- which a merge waits are its result. Sockets, processes, options and logs are I/O. libev, cJSON and the
-- parser generator are copies of other projects.
--
-- A partition bound of a kind that does not fit the type of the keys is an address taken for a number, or a
-- number for an address, in the source; in the model such a bound is 0 or NULL.
pub mod Common
pub mod Wire
pub mod Queue
pub mod Shard
pub mod Plan
pub mod Acl
pub mod Conf
pub mod Merge
pub mod Pool
