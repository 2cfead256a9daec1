-- ===== src/Lib.antt =====
-- The verification library of the solutions to the exercises of The Linux Programming Interface.
--
-- Of the repository's programs these are modelled.
--
-- BinaryTree models lib/binary_tree.c and lib/binary_tree.h, a search tree from strings to values. Every
-- function is a definition with its name (`bt_free_node` is part of `bt_free_rec`). A tree is a
-- term; a `BTNode **` is the path of turns from the root; the result of a call is an `Outcome`, in
-- which `fault` is undefined behaviour. The `switch` of `bt_delete` is `unlink`, its inner loop
-- `leftmost`. The children of the module: Spec (the textbook tree and the finite map), Order (the
-- search-tree order), Find, Removal, Lookup, Delete, Map (sequences of calls), Walk, Memory, Print.
--
-- SharedTree models 30_Thread_Synchronhization/ts_btree.h, the tree with a mutex in each node. The calls
-- of the mutex functions are events in the result of an operation. It takes the turns and the
-- replies of BinaryTree, and its Erasure and Lifecycle relate the two.
--
-- ProdConsumer models 30_Thread_Synchronhization/prod_consumer.c. The interleavings of the producers and
-- the main thread are a step relation, `Reach` the states that they lead to.
--
-- DynArray models lib/dynamic_array.c and lib/dynamic_array.h, the growable array, on its bytes. Its
-- children: Chunks (a block as a list of elements), Invariant, Elements, Reverse, Lifecycle.
--
-- ReadLine models lib/read_line.c, `readLine` on the answers of `read`.
--
-- VectorIo models 05_File_IO_More_Details/readv_writev_imp.c, reading and writing of several buffers,
-- with `read` and `write` as arguments. Its children: Transfer (lists of buffers), Scattering
-- (`readv_clone`), Gathering (`writev_clone`).
--
-- EffectiveAccess models 15_File_Attributes/effective_access.c, a check of the permissions of a file,
-- with `stat` and the ids of the process as arguments. Its child Rules has the rules for a
-- process without privileges.
--
-- JoinAny models 30_Thread_Synchronhization/join_any.c as a step relation. Its children: Counts (sums
-- over the threads), Invariant, Places (the steps of the threads keep it), Steps (those of the main
-- thread keep it, too), Progress.
--
-- LineBuffer models lib/read_line_buf.c and lib/read_line_buf.h. Its children: Scanning (the
-- loop, and what a call owes), Lines.
--
-- AclEntries models 17_Access_Control_Lists/get_named_acl_entry.c; its child Report says what is printed.
--
-- Getcwd models 18_Directories_And_Links/imp_getcwd.c; its child is Climbing.
--
-- NameServer models 59_Sockets_Internet_Domain/nv_sv.c, whose two trees are those of BinaryTree. Its
-- children: Updates (a value that is overwritten), Serving (requests for keys that it has), Unknown
-- (requests for others), Runs (rounds of the loop).
--
-- Environment models 06_Processes/setenv_unsetenv_imp.c; its children are Removal
-- (`unsetenv_clone`) and Setting (`setenv_clone`).
--
-- PathNames models 31_Thread_Safety_Storage/dirbase_name_tls.c (`dirname_ts`, `basename_ts`), and its
-- child Specific the version with keys, dirbase_name_tsd.c. Reversal is about the loop that swaps,
-- Splitting about both functions.
--
-- ProcessList models 12_System_And_Process_Info/list_pid.c, the processes of a user, with the files
-- and the directory as arguments. Its children: Lines (`getline_clone`), Fields (`getField`,
-- `getValue`, `getProcessInfo`).
--
-- ProcTree models the drawing of the tree in 12_System_And_Process_Info/proc_tree_view.c. Its
-- children: Marks (`findChild` and the children of a process), Printing, Hierarchy
-- (`printHierarchy`, `main`), Later (the array as it is marked), Closure (no descendant is left out).
--
-- SeqServer models the loop of 44_Pipes_And_FIFOs/fifo_sq_sv.c (children: Numbers, Restart), and its
-- child Messages that of 52_Posix_Message_Queues/pmsg_seqnum_server.c. The results of the system
-- calls of a round are an argument. `getNum` of lib/utils.h, which reads the backup file, is its `get_num`.
--
-- Prelude holds what they share: Boolean tests, lists over the native numbers, `strcmp` on strings
-- without their null, integers, and `Outcome`.
--
-- Numbers. A `size_t` is a number below 2 ^ 64 with its wrap-around written out where an operation
-- can wrap; an `int` that only counts is a number. `malloc` and `realloc` are arguments: for the
-- trees a record says which allocations of a call succeed, for the array a function gives the new
-- block. What `read` answers, and in which order threads run, is an argument or a step relation too.
--
-- Loops are recursion on the tree, on the list of answers or on that of buffers, or on the rounds
-- that are left. On fuel run the loop of `da_reverse`, whose end depends on a cast of its index to
-- `int`: it gets one round more than there are elements, which is enough for up to 2 ^ 31 of them;
-- the loop that swaps in `basename_ts`, with as many rounds as there are bytes; the loop of
-- `getProcessInfo`, which may run for ever, and ends in at most as many rounds as the file has lines
-- if it ends; the outer loop of `unsetenv_clone`, which takes one round for each entry that it removes
-- and one more; the loop of `imp_getcwd`, which takes one round for each directory up to the root; and
-- the recursion of `printHierarchy`, in which each nested call has one process less
-- that is not taken.
--
-- Not modelled are the programs that only show what a system call does (signals, timers, terminals,
-- sockets, most attributes of files): they keep no state of their own. Of the modelled files are left
-- out `da_intMax`, `int_asc`, `da_free` and `da_sort` of lib/dynamic_array.c, the reading of /proc in
-- proc_tree_view.c, the sockets of nv_sv.c, and what goes to the standard output, except for what
-- `bt_print` of lib/binary_tree.c, `bt_print_ts` of ts_btree.h, get_named_acl_entry.c,
-- `print` of list_pid.c and `printHierarchy` write.
pub mod Prelude
pub mod BinaryTree
pub mod DynArray
pub mod ReadLine
pub mod LineBuffer
pub mod SharedTree
pub mod ProdConsumer
pub mod VectorIo
pub mod JoinAny
pub mod EffectiveAccess
pub mod AclEntries
pub mod Environment
pub mod Getcwd
pub mod PathNames
pub mod ProcessList
pub mod ProcTree
pub mod SeqServer
pub mod NameServer
