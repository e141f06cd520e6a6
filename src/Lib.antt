-- ===== src/Lib.antt =====
-- VaultDB: a model of the core of the SQL server under server/internal, and what is proved of it.
--
-- The server parses SQL, plans and runs it over tables of 8 KB pages, and keeps transactions apart
-- by row locks, predicate locks and table versions. This library models the parts below, each from
-- its Go source; paths are from the repository's root.
--
-- Common: shared names, Boolean tests, slices as lists, little-endian words.
-- Fsm: server/internal/core/storage/fsm/fsm.go, the free space map of a table. `Fsm` is the struct
--   FSM; `new`, `grow`, `search_pages`, `update`, `save`, `load` are New, Grow, Search, Update, Save and
--   Load. The map picks the page for the tuples that the heap inserts. A slice longer than a uint32
--   counts (more than 2^30 pages) is outside the model, and the theorems say so.
-- RowLocks: server/internal/core/storage/lock_manager.go. `acquire`, `wake` and `release_all` are
--   Acquire up to its wait, a wake-up of a waiter, and ReleaseAll; `run` is a schedule of these.
-- Deadlock: server/internal/core/storage/deadlock.go. `add_edge` with `detect_cycle` is AddEdge;
--   `remove_edge` and `remove_node` are RemoveEdge and RemoveNode. The search takes as fuel two more
--   than the entries of the graph, and a theorem says that it is enough.
-- Page: server/internal/core/storage/page/page.go and itemptr.go, the slotted page. `Page` is the
--   array of 8192 bytes; `insert_tuple`, `insert_tuple_at`, `get_tuple`, `mark_dead`, `compact` and the
--   checksum functions are the methods of those names. crc32.ChecksumIEEE is a parameter. A method
--   returns an error of the code, or `panic` where Go panics on a slice. Clone and the methods of PageID are left out.
-- Tx: server/internal/core/txmanager/manager.go, the buffer of a transaction. `Buffer` holds the fields
--   of Transaction for it; `add_op`, `read_ops`, `savepoint`, `release_savepoint` and
--   `rollback_to_savepoint` are the methods of those names. The spill file is the list of its bytes, the
--   codec of operations a parameter, as EncodePendingOp and DecodePendingOp are variables there, with what
--   it keeps of an operation. Tx/Expr and Tx/Wire are the codec that server/internal/core/executor/tx_overlay.go
--   registers, and Tx/Kept says what that keeps. Whether the file system obeys is an argument of each call.
-- Occ: server/internal/core/txmanager/manager.go, predicate_lock.go and ssi.go: Begin, table versions,
--   `commit`, `commit_with_retry`, the active transactions, predicate locks and read-write conflicts.
--   Commit is one step, as it holds the locks of its tables. The function that applies the operations
--   is a parameter. The attempts of CommitWithRetry are counted by its configuration.
-- TwoPhase: server/internal/cluster/tx2pc/2pc.go, the coordinator of distributed transactions. `handle`
--   is a call of Prepare, Commit or Rollback.
-- Row: server/internal/core/storage/binary_encoding.go, rows as bytes. `encode_row`, `decode_row`,
--   `encode_column_value` and `decode_column_value` are EncodeRow, DecodeRow and the two functions for one
--   value; Row/Flags has the flags in the first word of a tuple. Row/Json is
--   DecodeJSON of server/internal/core/storage/json_decode.go, and Row/Objects is about rows with objects.
--   encoding/json is a parameter.
-- Bitmap: server/internal/core/storage/bitmap.go, sets of row positions. `add`, `and_pages`, `or_pages` and
--   `to_positions` are Add, And, Or and ToPositions. The map is an association list, in any order.
-- Like: server/internal/core/executor/eval/like.go, LIKE. `compile_pattern`, `match`, `get_or_compile` and
--   `eval_like` are compilePattern, match, getOrCompile and EvalLike of two strings. A string is the list of
--   its code points; regular expressions are a parameter, and so is what other goroutines do to the cache
--   while a pattern is compiled without its lock.
-- Toast: server/internal/core/storage/toast/toast.go, long values. `chunk_toasted_value` and
--   `assemble_toasted_value` are ChunkToastedValue and AssembleToastedValue, Toast/Pointer the pointer to a
--   value. compress/gzip is a parameter. Page/Tuple is server/internal/core/storage/page/tuple.go, the header
--   of a tuple and the bitmap of its nulls.
-- ResultCache: server/internal/core/executor/result_cache.go, results of queries. `get_result`, `put_result`,
--   `invalidate_table` and `invalidate_all` are Get, Put, Invalidate and InvalidateAll. The loop of Put takes
--   the length of the list as fuel, which is enough as each turn takes one entry away. Common/Recent has the
--   list of a cache, with Like.
-- PlanCache: server/internal/core/executor/plan_cache.go, plans of queries. `get_plan`, `put_plan`,
--   `evict_oldest`, `invalidate_plans` and `invalidate_by_version` are Get, Put, evictOldest, Invalidate and
--   InvalidateByVersion. The hash and the printing of parameters are parameters.
-- PageLocks: server/internal/core/storage/page_lock.go, striped locks of pages. `lock_table` and `unlock_table`
--   are LockTable and UnlockTable, `stripes_of` is the order in which they take the stripes. A call that
--   would wait gives none.
-- ClientIp: server/internal/iputil/iputil.go, the address of a client. `extract_client_ip` and `is_trusted` are
--   ExtractClientIP and isTrusted. Go's packages net and strings are parameters. The loop over the header
--   takes its length as fuel, and a theorem says that it is enough.
-- Wal: server/internal/core/wal/wal.go and group_commit.go, the log. `write_locked`, `write_record_raw`,
--   `sync_locked`, `append_batch` and `do_flush` are writeLocked, writeRecordRaw, syncLocked, AppendBatch and
--   doFlush. What the file system does in a call is an argument. Encoding and recovery are left out.
-- Not modelled: the parser, the planner and the commands, the page engine and its files, the indexes, the
--   network and the cluster beyond the coordinator. These parts are
--   large, or mostly input and output.
pub mod Common
pub mod Fsm
pub mod RowLocks
pub mod Deadlock
pub mod Page
pub mod Tx
pub mod Occ
pub mod TwoPhase
pub mod Row
pub mod Bitmap
pub mod Like
pub mod Toast
pub mod ResultCache
pub mod PlanCache
pub mod PageLocks
pub mod ClientIp
pub mod Wal
