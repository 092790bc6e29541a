-- ===== src/Lib.antt =====
-- nilfs-utils: the user-space tools of the log-structured file system NILFS2. A log-structured
-- file system is cleaned by a garbage collector: it picks segments, collects the blocks that
-- their logs describe, asks which of them are still wanted, and has the kernel move those and free
-- the rest. This library models that path.
--
-- Files, each opening with the code it is about:
--   * Base: Boolean tests on numbers, results of C functions, lists, machine words, signed integers,
--     and the operations on times of include/compat.h.
--   * Vector: the resizable array of lib/vector.c and include/vector.h.
--   * Segment: the iterators of lib/segment.c and include/segment.h over the logs of a segment.
--     Segment/Bytes reads little-endian fields, Segment/Crc is lib/crc32.c, Segment/Logs the checks of
--     one log, Segment/File the iterators over the files of a log and the blocks of a file.
--   * Gc: the collector's steps of lib/gc.c. Gc/Select is nilfs_deselect_segment and
--     nilfs_acc_blocks, which calls Gc/Accumulate (nilfs_acc_blocks_segment, _psegment and _file) on
--     the iterators of Segment; Gc/Snapshot is nilfs_get_snapshot; Gc/Live is nilfs_vdesc_is_live;
--     Gc/Describe is nilfs_get_vdesc and nilfs_get_bdesc; Gc/Whole composes all of them to
--     nilfs_xreclaim_segment, with its callers; Gc/Reclaim is the end of it, with the calls that
--     change the file system as a list; Gc/Toss is nilfs_toss_vdescs and nilfs_toss_bdescs; Gc/Unify is nilfs_unify_period.
--   * Parser is lib/parser.c: checkpoint numbers, ranges and protection periods.
--   * Cleaner: the daemon of sbin/cleanerd.c. Cleaner itself is its state (struct nilfs_cleanerd) and the
--     transitions of its mode; Cleaner/Args and Cleaner/Messages are the requests, from their bytes to
--     the replies, which Cleaner/Control relates to an abstract view; Cleaner/Check is
--     nilfs_cleanerd_check_state, Cleaner/Select nilfs_cleanerd_select_segments, Cleaner/Clean
--     nilfs_cleanerd_clean_segments, Cleaner/Interval nilfs_cleanerd_recalc_interval, and Cleaner/Round
--     the loop that calls them, then waits for a message.
--   * Policy: the selection of segments of sbin/policies/nilfs_policy_segregation.c. Policy/Cluster
--     is the choice among the candidates, Policy/Eligible the scan of all segments, Policy/Whole both.
--   * Tests: small runs and instances of the theorems.
--
-- How the code is read: a C function that may fail returns `Result`: a value, an error with its
-- errno, or a `fault`, which is undefined behaviour, a failed assertion, or a loop without end.
-- A loop is a recursion on fuel; the fuel given by the caller is the number of elements
-- (segments, blocks, snapshots) and one more, and 65 for the doubling of a 64-bit size: a round
-- takes at least one of them, or doubles the size. Sizes and block numbers are natural numbers
-- below 2^64 whose wrap-around is written out with u64 and sub64 where the code computes with
-- them; array indices held in an `int` are taken to be small enough for it.
--
-- Parameters: malloc and realloc (`alloc`, does a request of so many bytes succeed, and `junk`,
-- what fresh memory holds) and qsort (`sort`, an `IsSort`: a permutation in the order of the
-- keys); nilfs_get_cpstat, nilfs_get_cpinfo, nilfs_get_suinfo, nilfs_get_segment and
-- nilfs_put_segment, which wrap calls of the kernel; isspace and strtoull for Parser; and for a
-- whole reclaim nilfs_get_vinfo, nilfs_get_bdescs, nilfs_lock_cleaner, sigpending,
-- gettimeofday, nilfs_set_suinfo and nilfs_clean_segments. For the daemon: the clocks, ppoll and
-- mq_receive (`Wakeup`), mq_open and mq_send (`Mailbox`), nilfs_cldconfig_read, the policy, and the
-- collector (`Collector`); each round of the loop has its own answers.
--
-- Not modelled: messages, the kernel calls themselves, and the rest of the repository (the
-- start of the daemon and its log of the workload, its configuration, the other policies, mkfs, resize, tune, mount and the command
-- line tools).
pub mod Base
pub mod Vector
pub mod Segment
pub mod Gc
pub mod Parser
pub mod Policy
pub mod Cleaner
pub mod Tests
