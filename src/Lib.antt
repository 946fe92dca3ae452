-- ===== src/Lib.antt =====
-- A directory of relays: signed requests register relays, record their heartbeats and remove them, and
-- local operators moderate and prune them. This library models its core.
--
-- Admission (internal/admission) is the first stage of a request: a limiter with one token bucket for each
-- operation and source address, one for each operation and actor, and a bound on the requests in flight.
--   Admission/Config: Rate, Config, validateConfig. Admission/Bucket: bucket, refill, retryAfter.
--   Admission/Pool: bucketPool with admit and cleanup; the map is an association list and the list holds
--   keys, oldest first. Admission/Limiter: newLimiter, AdmitSource, AdmitActor, Release; Limiter/Run takes
--   calls one after another, as the mutex does. Admission/Source: validSourceAddress.
--   Times and durations are counted in nanoseconds as natural numbers; a context is what its two checks
--   read. A nil receiver is not modelled.
--
-- Identity (internal/protocol/v1/identity.go) makes actor and base URLs canonical.
--   Identity/Escapes, Utf8 and Path: normalizeActorPath. Identity/Authority: normalizeAuthority,
--   normalizeHost and their tests. Identity/Normalize: NormalizeRelayIdentity and the functions beside it.
--   Identity/Library: net/url, net/netip and the case functions, which are parameters.
--   Texts are lists of bytes; a refusal is `none`, since every error of the source is the same one.
--
-- Protocol (internal/protocol/v1/vocabulary.go) holds the operations and closed states that both use.
--
-- Store (internal/storage and internal/storage/sqlite) keeps the relays. It validates identities by Identity.
--   Store/Schema: the rows and the CHECK constraints of the migrations. Store/Transaction: the errors, and a
--   transaction that commits or rolls back; which statements of the database fail is a parameter.
--   Store/Rows: the validations, requireMonotonicTime, and the statements that the transitions share.
--   Store/Lifecycle: Register, Heartbeat, Unregister. Store/Moderation: Suspend, Restore.
--   Store/Enrollment: SetEnrollment.
--   Store/Pruning: SoftPrune, with PruneCandidates in
--   Pruning/Page. Store/History: requests one after
--   another. Store/Health: ClassifyHealth and PublicEligible of internal/storage/health.go.
--   Times are seconds since 1970; a reading before that is a value of its own. A cutoff is written as a sum on
--   the other side of the comparison, since it may lie before 1970. The rows of a table are an association
--   list by primary key, events a list with the newest at the end. A database that two writers use at once is
--   not modelled: SQLite runs their transactions one after another. A repository without a database or a
--   lease, and a commit that fails after it took effect, are not modelled.
--
-- Growth (internal/storage/growth.go, internal/storage/sqlite/growth.go) guards the size of the database files.
--   Growth/Percent: the arithmetic. Growth/State: classifyGrowthState and applyGrowthHysteresis.
--   Growth/Limits: databaseGrowthPageLimits and the checks of a connection. Growth/Sample: sampleDatabaseGrowth
--   and CheckMigrationGrowthAdmission. Growth/Row: the row of the guard and its changes. Growth/Guard:
--   sampleLocked, AcquireWrite, Ready, tick and processPending. Growth/Guard/Opening: NewDatabaseGrowthGuard and
--   InspectDatabaseGrowth.
--   What SQLite, the file system, the clock and the mailer answer are arguments. The timer loop of Run, the
--   log lines and the text of a mail are not modelled; intervals are in whole seconds.
--
-- Resolution (internal/actorresolver/cache.go) keeps the keys of actors. Resolution/Cache is the cache; a call is
--   two steps, begin and finish, since it takes the mutex twice and fetches the key between. Times and lifetimes
--   are natural numbers of nanoseconds, and so are the modulus and the exponent of a key, of which a negative
--   one is left out. A nil cache and the copies of keys, which are values here, are not modelled.
--
-- Replay (internal/storage/sqlite/replay.go, internal/protocol/v1/replay.go) reserves signed requests once.
--   Replay/Table: the durable store, validate, ReserveRFC9421Replay and CleanupExpiredRFC9421Replay.
--   Replay/Memory: the bounded store in memory. Replay/Live: when a key is reserved, by either store.
--   Replay/Agreement: the two stores side by side. Replay/History: calls of the durable store one after
--   another. A key is the digest that the source makes; its making, and the counts of rows that contradict a
--   statement, are not modelled.
--
-- Maintenance (internal/pruning) prunes relays by pages: Maintenance/Pruning is Run over any repository, and
--   Pruning/Stored gives it PruneCandidates and SoftPrune of Store/Pruning. A call answers with a new state, so
--   others may change the database between two calls; an outcome that is none of the three does not arise, and
--   a missing context or repository and a time before 1970 are left out.
--
-- The loops are structural recursion on a list or on the limit that the source gives, but the loop over the
-- pages of a pruning run: it counts turns, 1001 of them, which are enough since each page takes a scan.
-- Not modelled: HTTP, signatures, the fetch of actors, discovery, retention,
-- projections, configuration and the commands.
pub mod Prelude
pub mod Protocol
pub mod Admission
pub mod Identity
pub mod Store
pub mod Growth
pub mod Maintenance
pub mod Replay
pub mod Resolution
