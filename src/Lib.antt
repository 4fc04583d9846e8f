-- ===== src/Lib.antt =====
-- Verification library of fapolicyd, a daemon that asks rules whether a program may open or execute
-- a file.
--
-- The program. The kernel sends fanotify events; a reader thread puts them into a ring (library/queue.c)
-- and a decision thread takes them out. For each event `new_event` (library/event.c) sets up what is
-- known about the process and the file; `process_event` (library/policy.c) asks the rules in order
-- (library/rules.c), which look the attributes that they test up in the event (`get_subj_attr`,
-- `get_obj_attr`) and compare them with sets of values (library/attr-sets.c); the first rule with an
-- opinion decides, and `make_policy_decision` counts and answers.
--
-- The files. Each names its source at its top.
--   Base: shared names, tests, lists, signed integers, C strings and their prefixes.
--   Queue: library/queue.c. The ring as a record; its children have its invariant (Fifo), the bounded
--     list that specifies it (Spec) and the refinement (Refinement).
--   Escape: library/escape.c. Children: sizes, both round trips, bounds.
--   Attr: library/subject-attr.c and object-attr.c, the names of attributes.
--   AttrSets: library/attr-sets.c. Tree is the interface of the balanced tree; Members and Appends
--     are about the sets, Directory and Added about the table of named sets.
--   Process: the records of library/process.c and file.c and their comparison.
--   Subject: library/subject.c and object.c, the arrays of attributes.
--   Event: library/event.c, the lookups; Objects has those of the file, Cache and ObjectCache what
--     they keep; Lifecycle is the part of `new_event` that follows a process through execve, and its
--     children say what that part keeps and evicts.
--   Config: library/daemon-config.c, the options of the daemon, from the lines of the file on.
--   Filter: library/filter.c, which paths the trust database keeps. Walk has the recursive reading of
--     the tree, Agrees shows that the walk with its stack gives it, and Loader and its children are
--     about the file of filters.
--   Rules: library/rules.c, the evaluation: Pattern, Subjects and Objects are the parts of
--     `rule_evaluate`; Growth, Exclusive and Directories are about it.
--   Policy: library/policy.c, the decision and the answer.
--   Lru: library/lru.c, the cache. Linked and Slots are about the list and the table, Unlinks,
--     Removal, Insertion, Moves and Enqueued about the steps of the code, Touch has the list of
--     entries that specifies the cache, Uses and Evictions show that the calls implement it, Steps
--     is about every cache that calls build, Destroyed about its end, Failures about calls that go
--     wrong.
--   Reader: library/fd-fgets.c, lines read through a buffer. Memory is about writes to the region,
--     Lines about what a call hands back, Reads about a call, RoundTrip about sequences of calls,
--     Drain about the end of the file.
--   Strings: library/string-util.c, trimming.
--   LList: library/llist.c, the list of trust entries with its pointer `last`. Linked has the
--     invariant, Removals what a removal leaves, Calls the refinement to plain lists, Merge is about `list_merge`.
--   Trust: library/trust-file.c, the files of trusted paths: their lines and their loading. Decimal has
--     the numbers in them, Edit the writing and the edits, All the functions over all files; Line,
--     Text, Entries and RoundTrip lead to the round trip of a file, NoDuplicates is about every load, Edits
--     and Remains about deletion, Additions about pruning and appending, Failures about loads that fail.
--   Database: library/database.c, records and keys. Lookup has the reads and check_trust_database,
--     Store the writing of a record, Memfd the loading of a backend's snapshot; Records is about
--     the parsing of what backends store, Trusted and Backed about what makes a file trusted, Complete
--     about which files are, Keys and Presence about values stored and found, Copy about the comparison with the
--     backends, Update about the rebuilding of the database.
--
-- Correspondence. A function of the source has its name here; the state that it changes through a
-- pointer is an argument and a result. A NULL pointer is `none`, a C string a list of bytes without
-- its NUL. Unsigned integers are natural numbers, with `% 2 ^ 32` where the queue's index may wrap; the
-- size of a record of the database, an off_t, is a signed integer.
--
-- Bounds and fuel. `unescape_loop` of Escape runs on fuel, one more than the length of its input,
-- and is shown to return with it. The loop of destroy_queue has a turn for each entry, and is shown
-- to end with them. The walk of Filter has a turn for each node, and is shown to end with them. The
-- loop over EINTR of Reader is followed for a number of tries, and is shown to end within those in
-- which the descriptor answers. The calls of `fgets` on a trust file are followed for as many rounds
-- as the file has bytes, which are shown to read all of it. `read_trust_db` makes 127 rounds at most,
-- as the code does; a line of a snapshot is searched for its newline in the 4096 bytes of its buffer, as
-- in the code; the search of check_data_presence is shown to end within two rounds more than
-- a key has values. Loops over lists are structural.
--
-- Parameters. The balanced tree (library/avl.c, a copy of another project's) is an instance
-- argument `Avl T` with its documented laws; AttrSets/Sample has a list in its place. What the
-- event code reads from /proc, from descriptors and from the trust database is the record `Env` of
-- Event, and what the configuration asks of the system is the record `Host` of Config. The function
-- fnmatch of Filter, what measures a file and which allocations fail in Trust, LMDB (the record `Db`
-- and the function `put` with the laws of Keys), SHA512 and what measures a file in Database, and the
-- kernel's `read` of Reader are arguments, and so are the outcomes of `sem_wait` and of memory
-- allocation where the code tests them; the attribute arrays and the reads of the trust database
-- always get their memory, but for the hash of a key.
--
-- Not modelled: the text of log lines, freeing of memory, threads other than by the order of the
-- queue's calls, the rule parser, the update thread's loop and LMDB's environment, the backends, the
-- daemon's set-up and the command line tools.
mod Base
pub mod Queue
pub mod Escape
pub mod Attr
pub mod AttrSets
pub mod Process
pub mod Subject
pub mod Config
pub mod Event
pub mod Filter
pub mod Rules
pub mod Policy
pub mod Lru
pub mod Reader
pub mod Strings
pub mod LList
pub mod Trust
pub mod Database
