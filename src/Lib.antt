-- ===== src/Lib.antt =====
-- Verification of the core logic of omnistorage-core: storage backends for key-value pairs,
-- sessions and objects, behind interfaces that applications use.
--
-- The parts, and how they interact. The key-value store keeps values with a time to live; the
-- session store keeps sessions by ID with an index by user, and a `ControlledStore` wraps any
-- session store to validate sessions, to limit their size and number, and to keep sites apart. The
-- object backend keeps files by path; a multi-writer sends a file to several backends; the sync
-- engine lists two backends through a filter, copies what one lacks through a rate limiter, retries
-- what fails, and deletes what is too much; the check compares two backends, and the bidirectional
-- synchronisation copies both ways and settles conflicts. A backend on Go channels passes messages
-- between goroutines, another keeps files on the local filesystem, and records are kept as lines in any of the backends.
--
-- Which file models which part, definitions having the names of the Go functions in snake_case:
--   Kvs.antt               errors of kvs/kvs.go
--   Kvs/Memory.antt        kvs/backend/memory/memory.go: `Store` is the struct, and each method a
--                          function from a store to a store and a result. Trace.antt has runs of
--                          calls with the ticks of the cleanup goroutine between them.
--   Session.antt           session/session.go and session/errors.go; Session/Ids.antt has the
--                          session IDs
--   Session/Order.antt     the sorting loop of `ListByUserID`
--   Session/Memory.antt    session/backend/memory/memory.go
--   Session/Backend.antt   the interfaces `Store` and `SessionLister`, as a record
--   Session/Controls.antt  session/wrapper.go, over that record
--   Kvs/Backend.antt       the interface `ListableStore` of kvs/kvs.go, as a record, with its
--                          promises
--   Session/Kvs.antt       session/backend/kvs/kvs.go, over that record. Session/Kvs/Abstract.antt
--                          is a map of sessions without indexes; Refinement.antt and Runs.antt
--                          relate the two, InMemory.antt puts the in-memory store below.
--   Object.antt            errors of object/errors.go and of the in-memory backend
--   Object/FilePath.antt   `path.Clean`, and `validatePath` and `normalizePath` of the backend
--   Object/Memory.antt     object/backend/memory/backend.go
--   Object/Multi.antt      object/multi/writer.go, over a record of what a backend offers
--   Sync/RateLimit.antt    object/sync/ratelimit.go
--   Sync/Retry.antt        object/sync/retry.go
--   Object/Backend.antt    the interfaces of object/interfaces.go and object/extended.go, as records
--                          of operations over a state that two backends may share
--   Sync/Filter.antt       object/sync/filter/filter.go
--   Sync/Options.antt      object/sync/options.go
--   Sync/Listing.antt      `listFiles` of object/sync/sync.go
--   Sync/Transfer.antt     the copy of one file, and `MoveFile`, of object/sync/sync.go
--   Sync/Engine.antt       `Sync`, `CopyDir` and `Move` of object/sync/sync.go
--   Sync/Copies.antt       object/sync/copy.go
--   Sync/Content.antt      the loop of `compareContent` of object/sync/check.go
--   Sync/Check.antt        the rest of object/sync/check.go
--   Sync/Verify.antt       object/sync/verify.go
--   Sync/Bisync.antt       object/sync/bisync.go: Types.antt has the options and results, Plan.antt the
--                          comparison, Conflicts.antt `resolveConflict`, Run.antt `Bisync`
--   Object/Files.antt      object/backend/file/backend.go, over a record of what package os does
--   Object/Files/Extended.antt  object/backend/file/extended.go
--   Object/Features.antt   object/features.go
--   Object/Registry.antt   object/registry.go, over a dictionary of factories
--   Object/Channel.antt    object/backend/channel/backend.go
--   Object/Ndjson.antt     object/format/ndjson
--   Object/Hashing.antt    object/hash.go
--   Object/Copying.antt    object/copy.go and object/move.go
--   Base.antt              what all share: Boolean tests, equality as an instance, lists,
--                          dictionaries, sorting, strings as bytes, results
--   Tests.antt             runs at concrete inputs
--
-- How state and time are modelled. A method becomes a function from the state to the state and a
-- `Result`; a mutex makes a method one step, so that an interleaving is a sequence of calls and
-- ticks. `wait` of the rate limiter gives its mutex back while it sleeps: each round of its loop is a step,
-- and what the other goroutines do to the bucket in between is a list in that round. `Get` of the session store takes its mutex twice; beside the function for the whole, the
-- calls of Session/Memory/Calls.antt have its second half. The methods of `ControlledStore`, which
-- call the wrapped store more than once, are one step. What `time.Now()`, `ctx.Err()` and
-- `rand.Read` return is an argument. A time is a number of nanoseconds since the zero `time.Time`, which is 0; durations, sizes and limits of type int,
-- int64 or time.Duration are unbounded integers, and no overflow is modelled but that of the
-- difference of two times, which saturates, and of its negation. A string is the list
-- of its bytes. A Go map is an association list; its order of iteration is that of the list, which
-- no result depends on where the results below compare what a caller sees. Copies that guard
-- against aliasing are the identity here; that the copy of a session shares its `Data` map with the
-- caller's is not modelled.
--
-- Parameters stand for code outside of the repository: `uuid.UUID.String`, `json.Marshal` and
-- `json.Unmarshal`, the digest in `SessionRef`, the wrapped store of the controls, the backends of
-- the multi-writer and of the sync engine, the floating-point accrual of tokens, the multiplier and
-- the jitter of delays, the digests of `NewHash`, `hex.EncodeToString`, `filepath.Match`, `strings.TrimSpace` and
-- `tsync.Equal`. The key-value store
-- of the sessions and the backends of the sync engine have laws where a result needs them; the tests
-- have concrete stores that keep these.
--
-- Concurrency of the sync engine. The workers' copies are whole steps, one after another, in an order
-- that is a parameter, as is the order in which a Go map is walked; the context may be cancelled in
-- any state. A cancellation in the midst of a copy, and a copy that interleaves with another, are
-- left out.
--
-- The file backend. The operating system is a record of operations on a world `W`; the names of a path are
-- taken apart by `filepath.Clean` as `path.Clean` does it, as on Unix. What `Copy` relies on is `IsFileSystem`
-- of Object/Files/Laws.antt; a disk that keeps it stands in Tests/Files.antt.
--
-- The channel backend. A pointer to a `channelInfo` is a number; a `Write` is split in two, its checks and
-- its send, so that the calls of others may come in between. A call that would block waits, which is an
-- outcome of its own. Channels have a buffer of at least one message.
--
-- Fuel. The sorting loop runs one round for each session. `read_all` takes the number of its rounds
-- and needs one more than there are bytes. The loop of the rate limiter takes
-- its rounds, and the one of the retries the number of attempts that are left. The loop of
-- `compareContent` takes as many rounds as the source's file has bytes, and one, which is enough. The reader of lines takes one round more than there are bytes left, which is enough as well.
--
-- Not modelled: logging and the texts of messages (the number of sessions that a `DeleteByUserID`
-- had deleted before an error is left out with them), the stores on SQLite, Redis, SFTP and Dropbox,
-- compression, `CopyFromPath` of object/sync/copy.go, the text of a verification's report, and the
-- progress callbacks of the sync engine.
pub mod Base
pub mod Kvs
pub mod Session
pub mod Object
pub mod Sync
pub mod Tests
