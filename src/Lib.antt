-- ===== src/Lib.antt =====
-- A verification library for JIT-DT, which hands observation files over to a simulation as they arrive.
-- A watcher sees files appear in a directory. lwatcher keeps them in a history and serves them over
-- sockets; kwatcher keeps a history of its own and puts the names of a complete set of files into a
-- lock file of a shared directory. A client gets the files of one date by jitget, from either.
--
-- The parts and their files:
--   Common    what the others share: tests, lists with native lengths, signed integers, C strings as
--             byte lists (Common/Text), and Outcome, what a run of a C function ends in: a result, an
--             exit, or a fault, which is an access outside an array (Common/Outcome).
--   Hist      src/misclib.c and src/misclib.h: the ring of files between lwatcher's watcher thread,
--             which calls histput, and its transfer thread, which calls histget, histwait and
--             histremove. A call is one critical section of the mutex; a wait on a condition variable
--             ends it, and the `_wake` function is the next section. Hist/Threads has the interleavings
--             of the two threads as a step relation. Pointers into the ring are indices.
--   Conf      src/regexplib.c: the lexer and the reader of a configuration (Conf/Lexer, Conf/Reader),
--             the match of a file name against it and the place of a type (Conf/Match). `exit` is an
--             error with its line number. regcomp and regexec of libc are a parameter.
--   Kwatch    src/kwatcher.c: mkhist and transfer. regex_match and sync_entry are those of Conf/Match;
--             `rename`, `atoll` and `malloc` are parameters; what is done to files and to the lock file
--             is listed as effects and lock events.
--   Lwatch    src/lwatcher.c: watcher, which calls histput of Hist, and a turn of transfer for each
--             command of a client (Lwatch), with what the replies hold (Lwatch/Serve). Files are read
--             by a parameter; what malloc gives and whether a reply can be sent is an argument.
--   Client    src/jitclient.h and src/jitkclient.c: septype and _jitget on the contents of the lock
--             file, which Kwatch writes. Opening and reading a file is a parameter.
--   Net       src/jitcclient.c and src/jitcclient.h: netread and netwrite, requests, replies and
--             _jitget over a socket. A socket is the list of the pieces in which its bytes arrive. The
--             layout of `struct trans_cmd` in memory is a parameter.
--   Trans     src/translib.c: parse_url and trans_type (Trans/Parts); and src/misclib.c: the two lock
--             files of a directory, which locked_lock takes in turns (Trans/Lock). Whether a file can be
--             opened and locked is a parameter.
--   Watch     src/inotifylib2.c: mynotify, which calls a function for each file that has arrived
--             (Watch/Call), the ring of watches to be removed (Watch/Keep), the arrays (Watch/Bounds) and
--             dirs_check (Watch/Dots). What inotify, stat and readdir answer is a parameter.
--   LockFile  src/misclib.c: what a lock file holds after locked_write and locked_unlock_nullify, and
--             what locked_read gives of it (LockFile/Strings), from kwatcher to jitget (LockFile/Pass).
--   Trans/Sftp  src/translib.c: sftp_put and put_cmd over the two pipes to sftp: what a call leaves open
--             (Trans/Sftp/Keeps, Holding, Owns) and what it tells (Trans/Sftp/Told, Script). What the
--             system answers is a parameter that may depend on all that was done before.
--   Trans/Move  src/translib.c: locked_move with its copy loop (Trans/Move/Copy), over a map from paths
--             to contents (Trans/Move/Moved). The fuel is the length of the file and one more, since a
--             read that does not fail gives a byte or is the last.
--   Net/File  src/jitcclient.c: _jitopen and _jitread over a socket, and the replies to them
--             (Net/File/Reply).
--   Lwatch/Session  src/lwatcher.c with src/jitcclient.c: the command GET from the client's request over
--             the server's turn to the client's buffers.
--   WatchTransfer  src/watch_and_transfer.c: transfer, and src/misclib.c: logfupdate (WatchTransfer/Taken).
--   Client/Mpi  src/jitclient.c: jitget in the processes of an MPI job (Client/Mpi/Spread). The broadcasts
--             are listed.
--   Http      src/http_daemon.c: the handler of uploads (Http/Pieces, Http/Request, Http/Closed) and of GET
--             (Http/Browse). The fuel is for the loop of fwrite; the length of a part is enough, where
--             fwrite succeeds. libmicrohttpd is a parameter.
--   Dates     src/misclib.c: timeconv; src/calctime.c: ll2tm and the sscanf of a stamp (Dates/Stamp); and
--             dateconv of src/misclib.c (Dates/Conv).
--   KFile     src/jitkclient.c: _jitopen, _jitread, _jitclose and jitname (KFile/Opens, KFile/Reads,
--             KFile/Session), on the table of descriptors (KFile/Table) and the lock files.
--   Lwatch/Loop  src/lwatcher.c: the loops of transfer over connections and commands, with watcher between
--             the turns: what a client gets (Lwatch/Loop/Commands), and what any order of the
--             turns keeps (Lwatch/Loop/Sound, Lwatch/Loop/Kept).
--   WatchTransfer/Main  src/watch_and_transfer.c: main with its options, and terminate
--             (WatchTransfer/Main/Options, WatchTransfer/Main/Refused).
--
-- Numbers are natural numbers where the C code keeps them from being negative, and ℤ for the counter of
-- the history, places of types and options of a request. Dates are not negative. Overflow of `int` is
-- modelled for the sum of sizes in GET only: counters and indices are bounded by the sizes of the arrays. The sizes of the buffers
-- that callers pass to matchedcopy are not modelled, nor is the content of memory that is not set.
--
-- Fuel: gettoken's retries have the length of the rest and one, every loop of readconf the length of the
-- file and one, which is enough since every token but an error consumes a byte. netread has any fuel
-- above the number of pieces; after the end of the stream none is enough.
--
-- Not modelled: the option parsing of kwatcher and lwatcher; the printing in the debug and verbose
-- modes, which has no effect on what is modelled; scp_put, which runs one command; what a child does
-- before it runs sftp; the SIGPIPE of a write to an sftp that has gone, and a waitpid for sftp that
-- does not return; the length of the paths in curname of _jitget; the opening of sockets; the sending
-- of files by HTTP, which is curl's work; the casts to `int` in timeconv and dateconv and numbers that
-- are too large for sscanf; mktime and the arithmetic of calctime on floats; inotifylib.c, the older
-- form of inotifylib2.c that only Makefile-hibiki builds, watch2_and_transfer.c, and the programs for
-- tests. That paths fit their arrays of PATH_MAX in the directory watch is stated in Watch/Bounds and
-- is no fault of its model.
pub mod Common
pub mod Hist
pub mod Conf
pub mod Kwatch
pub mod Client
pub mod Net
pub mod Lwatch
pub mod Trans
pub mod Watch
pub mod LockFile
pub mod WatchTransfer
pub mod Http
pub mod Dates
pub mod KFile
