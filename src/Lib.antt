-- ===== src/Lib.antt =====
-- A library that limits the bandwidth of a program by wrapping the socket functions of libc
-- (BandwidthLimiter/src), and the launcher that preloads it (BandwidthLimiter/resilience.c).
--
-- The launcher turns its options into environment variables and executes a command with the library
-- preloaded. The first wrapper of overload.c that the command calls sets everything up: the ports come
-- from the variables, or from the configuration file that parse_config.c reads into a list of list.h,
-- and libc is opened. The wrappers call the controller of interface.c before and after the function of
-- libc. The controller knows the sockets, by fd.c, and the limits of each port, by register_env.c. Both
-- keep their data in the red-black trees of red_black_tree.c.
--
--   Base      shared names, the integers of C without bound, the outcome of a call
--   Text      the functions of libc on strings that the program calls, and the environment. A string
--             is its bytes without the NUL; what `strtok` goes on with is part of its result.
--   Tree      BandwidthLimiter/src/red_black_tree.c and rb_tree_helper.c. A subtree is a value and the
--             sentinel `nil` its leaf; a node pointer is a subtree with the frames above it, which are
--             its chain of `parent` pointers. A write through a pointer is the whole tree around the
--             new subtree. Tree/Shape the nodes and rotations, Tree/Order the comparisons, Tree/Query
--             `rb_exact_query`, `tree_successor` and `tree_predecessor`, Tree/Insert
--             `rb_tree_insert`, Tree/Delete `rb_delete`, Tree/Traverse `start` and `next`, Tree/Destroy
--             `rb_tree_destroy`; Tree/Balance the red-black invariant, Tree/Sorted the key order,
--             Tree/Table the tree as a finite map.
--   Links     list.h and `__do_cleanup_list__`: the two links of each address. Links/Chain which memory
--             holds which list, Links/Clean its release.
--   Config    parse_config.c. Config/Fields the value of a port, Config/Lines a line, Config/File the
--             lines of a user, Config/Ports and Config/Total the loops, Config/Whole whole files,
--             Config/Count, Config/Ends and Config/Endless whether the loops end.
--   Sock      fd.c: `sock_struct` is the record `SockStruct` of two trees. Each operation takes it and
--             returns it with the result. Sock/Invariant says when it is valid, Sock/Accept,
--             Sock/Release, Sock/Port, Sock/Copy and Sock/Stamp what the operations do.
--   Env       register_env.c: the port table. Env/Limits the reads and writes of a port, Env/Setup how
--             the table is filled.
--   Controller  interface.c. Controller/Grant the policy of the window, Controller/Invariant the valid
--             state, Controller/Sockets and Controller/PreOp the operations in it,
--             Controller/Delay the sleep, Controller/Init `__init_env__` with the two functions of
--             register_env.c that read the variables and the file, Controller/CleanUp the release.
--   Overload  overload.c: the wrappers, with the answers of libc as arguments. Overload/Transfer one
--             transfer, Overload/Budget and Overload/Window the bytes of a window, Overload/Safety
--             sequences of calls, Overload/Start the same from the set-up on, Overload/Process the
--             globals and `INIT_ENV`, Overload/Api the exported functions with their arguments,
--             Overload/Threads the orders in which threads take the lock (with
--             Overload/Threads/Overlap, transfers that are under way at once), Overload/Rate the calls
--             in time, Overload/Routes a specification of the sockets without trees and counters (with
--             Overload/Routes/Stays, Overload/Routes/Defects and Overload/Routes/Races, what follows
--             from it),
--             Overload/Copies `dup` and `dup2`.
--   Alloc     safe_malloc.c. The other files take an allocation to give a cleared block.
--   Launcher  resilience.c. Launcher/Options the order of the options, Launcher/Words the split of the
--             command, Launcher/Handover the variables from the launcher to the library,
--             Launcher/Program a whole run, Launcher/Limit the bytes that an option allows,
--             Launcher/FileLimit those that a line of the configuration file allows.
--   Tests     runs at small inputs, and the theorems at concrete states.
--
-- A NULL pointer that is read or printed, a read or write out of bounds, and a sentinel that is painted or rotated,
-- is the outcome `crashed` (in a tree routine `none`); `exit(n)` is `exited n`, with the status modulo
-- 256. The loops of the parser, of the lists and of the traversal take rounds: one for each line read or
-- counted, or for each member or entry, and one more, and theorems say which number is enough. The other
-- loops are structural recursion. Signed integers have no bound: limits are at most 1000 times an `int`,
-- the counters only fall from them, and times in nanoseconds fit 64 bits until the year 2262; the
-- conversions of `atoi` and between `size_t`, `ssize_t`, `int` and `uint32_t` are written out.
--
-- Arguments stand for what is outside: the answers of libc and the clock, the configuration file, what
-- `getopt` and `getcwd` find, `dlopen` and `dlsym`, and what the string of the path of libc reads as
-- when the array that it lies in is gone.
--
-- Not modelled: the lock itself (the part of a wrapper that holds it runs to its end; the first part of
-- `accept`, `close`, `dup` and `dup2` is the set-up, and the calls that follow one another stand for
-- the other parts, in the order in which they take the lock); the buffers that libc fills; printing;
-- what a failed allocation, which ends the process, cuts short; what `strcpy` does to overlapping
-- strings in `trim`, which is taken to move the bytes; whether `execvp` succeeds.
pub mod Alloc
pub mod Base
pub mod Config
pub mod Controller
pub mod Env
pub mod Launcher
pub mod Links
pub mod Overload
pub mod Sock
pub mod Tests
pub mod Text
pub mod Tree
