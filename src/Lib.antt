-- ===== src/Lib.antt =====
-- The containers of cmake_template, a collection of C libraries, and some of its other libraries. A
-- container is a C struct with functions on it; failures are exit codes or NULL.
--
--   libs/Core: exit codes, results of comparisons, callbacks: Core. The comparison functions of
--     comparisons.c: Comparisons.
--   libs/DSA/stack (stack.c): Stack. A bounded stack in an array. `stack_push` is Stack.push, and so
--     on. Stack/Spec is the bounded list that a client sees; Stack/Refine relates the calls and
--     sequences of calls to it; Stack/Clear has stack_init, stack_clear and stack_destroy.
--   libs/DSA/vector (vector.c): Vector, its loops in Vector/Loops. A growing array; `size` is an int
--     (ℤ), since the code can make it negative, and a cell that realloc has added is `none` until it
--     is written. Vector/Layout says what a vector holds; a file per operation has its theorems.
--   libs/DSA/linked_list (linked_list.c): LinkedList. Nodes with both links on a heap
--     (LinkedList/Memory); the operations are in Push, Pop, Search, Select,
--     Sort and Clear. Sort has fuel for one round more than there are nodes. LinkedList/Seg has the
--     segments of linked nodes, LinkedList/Header the struct and what it means to be a list of nodes.
--   libs/DSA/hash_table (hash_table.c): HashTable. A chain is reached from its table only, so it is
--     the list of its nodes. HashTable/Entries has the data under a key, HashTable/Laws the
--     operations as those of a queue under each key, HashTable/Hash the index, HashTable/Listing
--     hash_table_find and hash_table_list, HashTable/Life init, clear and destroy.
--   libs/DSA/queue (queue.c): Queue. Nodes with one link on a heap (Queue/Linked). A call from its lock
--     to its result is one step; Queue/Calls and Queue/Clear have the calls one by one, Queue/Reach
--     and Queue/Fifo the calls of several threads in any order.
--   libs/DSA/adjacency_list (adjacency_list.c): Graph. Nodes and edges in a store; a list_t is the
--     sequence of its data, and its uint32_t size the length modulo 2^32. Graph/Valid says what holds a graph
--     together, Graph/Edges and Graph/Nodes add to it, Graph/Search looks for an edge, Graph/Remove
--     has graph_remove_node and graph_clear. Graph/Walk has graph_dfs and graph_bfs, which are one loop
--     over a stack or a queue: Count, Scan, Loop and Correct lead from one edge to the whole walk.
--   libs/Threading (thread_pool.c): Pool, on Queue. Pool/Reach has the threads of a pool as steps in any
--     order: a worker between its blocking calls, a call of thread_pool_add_task in two parts, the
--     broadcast and the joins of thread_pool_shutdown. A worker in pthread_cond_wait stays there until it
--     is woken. Pool/Steps and Pool/Works what each step keeps, Pool/Orderly what holds in every state,
--     Pool/Shutdown the end.
--   libs/Math (number_converter.c): Numbers, with strtol, strtoul and the conversion %u of the C library.
--     Numbers/Decimal has the positional value of digits, Numbers/Laws what is accepted and stored.
--   libs/Strings (string_operations.c): Strings.
--   apps/salt_vault/server (option_handler.c): Options, on the results of getopt, with Numbers for the
--     values. Options/Steps has one round of the loop; Valid, Once and Help have the theorems.
--   libs/Signals (signal_handler_single_thread.c, signal_handler_multi_thread.c): Signals, with what
--     sigaction and sigwait return as parameters.
--   libs/DSA/adjacency_matrix (adjacency_matrix.c): Matrix, with which allocations succeed as a
--     parameter.
--   libs/Networking/common (socket_io.c): Sockets. What send(), recv() and the other system calls return
--     is a parameter; Sockets/Send and Sockets/Receive have the loops, Sockets/Transfer both ends.
--
-- Prelude has the names that all share: tests on native numbers, lists, an ℤ. Text has C strings as
-- lists of bytes, with strncmp and strstr. Core has the runs of C code: a run ends with a value, with
-- a fault (a read, write or call through a wrong address, a division by 0), or has used up its fuel.
-- A pointer is a number and NULL is 0. An allocation takes its success as an argument `granted`, or
-- the address that it returns. Data that is handed to a callback is logged in a list, in order; the
-- callback itself is code of the caller.
--
-- Fuel: the loops over a NULL-terminated list of nodes and the loops of the clear functions have one
-- round more than the size field says, the loops of socket_io.c one more than there are bytes, the
-- traversals one more than the graph has nodes; the theorems on them show that this is enough.
--
-- Not modelled: qsort, which is a parameter of vector_sort, and random_number; which thread the
-- signals of the queue wake; memory of the C heap other than the nodes; the
-- debug output and the text of the help menu. The random numbers, the TCP server, files, logging,
-- system information and encryption are not modelled.
pub mod Prelude
pub mod Core
pub mod Text
pub mod Comparisons
pub mod Stack
pub mod Vector
pub mod LinkedList
pub mod HashTable
pub mod Queue
pub mod Numbers
pub mod Strings
pub mod Options
pub mod Sockets
pub mod Graph
pub mod Pool
pub mod Signals
pub mod Matrix
