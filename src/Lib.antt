-- ===== src/Lib.antt =====
-- qumo: a model of the core of the qumo relay and of its capability tokens, with the theorems that
-- make them correct.
--
-- The relay keeps the groups of a track that its publisher sent last in a ring of group caches, which
-- are recycled. One goroutine reserves a group and fills it, while the egress of every subscriber
-- takes groups by position and iterates over their frames. A session is admitted with a capability
-- token, or anonymously, and may present further tokens (tickets) later: each is verified, and what
-- it grants is put in the place of what the session held before, and a session is checked again at a
-- cadence. Of several sessions that announce one path, one is the route and one may be kept as the
-- alternate. Publishers also come over RTMP, whose messages are cut into chunks.
--
-- Files, and the code that they are about:
--   Common: the names of the standard library that the others use; tests on numbers, lists, texts of
--     bytes, families with one value changed, and results.
--   Relay/Cache: internal/relay/group_cache.go (groupCache) and internal/relay/frame_pool.go. The
--     atomic fields are fields of a record; append, next and frames are functions of them. Slots: what
--     is stored where. Filling: the accesses of the filler, also those within an append, as steps.
--     Reader: the iterator, whose two loads in each round may have such steps in between.
--   Relay/Ring: internal/relay/group_cache.go (groupRing). An address stands for a pointer to a cache;
--     reserve, get, decrRef, markEvictedLocked, releaseCache and fill are functions of the heap. Steps:
--     the operations in any order, each as one step; Invariant, Reserve and Holders: who holds which
--     cache; Window, Contents and Fill: what get and next find then; Advance: reserve in its two parts,
--     with others in between; Racing: decrRef in its two accesses, with others in between; Readers:
--     what a reader can count on, and Race: what it can not.
--   Relay/Roots: internal/relay/admit.go (rootHolds, rootState, withdrawal, roleOf). A handle stands
--     for a pointer to a withdrawal; what a method withdraws is in its result. Steps: the calls of the
--     handlers in any order; Invariant and Keeps: what holds between two calls; Supersede, Puts and
--     Register: which tickets a ticket ends; Connection: the connection's own credential.
--   Relay/Held: internal/relay/admit.go (heldGrants). Steps: the calls in any order, with the tickets in
--     flight; Bound and Usage: the key and what usage is told; Deadline: the timers and the pending count.
--   Relay/Admission: internal/relay/admit.go (admit, reservePending, authOutcome and what is made of a
--     grant). Pending: the accesses to the count of pending sessions in any order.
--   Relay/Drops: internal/relay/drop_reporter.go and drop_distributor.go. Spans, Merge and Handled: the
--     positions that a reporter has handled; Reports, Tells and Flushes: what its methods tell; Ledger,
--     Skips and Refines: it as a set of positions; Since: the drops of the upstream.
--   Relay/Egress: internal/relay/handler.go (egress, startPosition). A round is a function of what its
--     loads return. Times, Rounds and Once: what is told and given; Positions and InOrder: which groups
--     are found while the ring changes by whole operations; Missed: an eviction between two loads;
--     Passed: a position that is public before its group.
--   Relay/Routes: internal/relay/handler.go (compareRoutes) and server.go (serveSession, installRoute,
--     retainRouteLocked, promoteAlternate, discardAlternate). Rank: the order of routes; Election: the
--     route, the alternate and the handlers of one path; Steps: the sessions in any order; Stranded,
--     Installs, Kept, Promoted and Reached: what every step keeps.
--   Relay/Lease: internal/relay/lease.go (startLease, stop, fire, check, retryDelay). The calls in any
--     order; Timer: which checks are to come, and when the session is closed.
--   Token/Path: token/path.go, over texts of bytes. Segments and Directories: normal forms; Within:
--     containment by segments.
--   Token/Grant: token/grant.go. Allows: the patterns; Checked: what a key may sign.
--   Token/Claims: token/token.go (Verify, VerifyLive, checkTime, grantOf). Dates: the validity; Sound
--     and Bounds: what an accepted token is; Live: a token at a later time.
--   Auth: internal/auth (Verifier, keyStore, Grant). Verifier: the definitions; what usage is told is in
--     the results. Decisions: when a credential and a ticket are accepted; Sessions: revalidation.
--   Rtmp/Amf0: internal/rtmp/amf0/amf0.go. Words, Carried, Reads and Atoms lead to RoundTrip; Fuel: the
--     fuel of the decoder; EmptyKey: maps with an empty key.
--   Rtmp/Chunk: internal/rtmp/stream.go and conn.go (readMessage, writeRawMessage, checkAck,
--     handleControlMessage, the reading of readNextCommand, and the senders they call) with message.go.
--     Write and Read: the definitions; Headers, Acks, Rounds, Pieces and RoundTrip lead to Sent, what one
--     connection writes and another reads; Total and Bounded lead to Ended, how readMessage ends;
--     Oversize: messages that are too long for their header; Control: the control messages; Commands:
--     how the reading of readNextCommand ends; Sizes: a chunk size that a connection sets.
--   The modules called Examples hold tests, and the theorems at concrete inputs.
--
-- Bounds. Counters are numbers with their wrap-around written out: references of 32 bits, positions
-- and ticket numbers of 64. The step relations assume fewer than 2 ^ 31 references to one cache, and
-- fewer than 2 ^ 64 groups and tickets. Every loop is structural but four, which have fuel. The AMF0
-- decoder: each call of it reads a byte before it calls another, or counts down a loop whose body
-- does, so twice the length of the input and one is enough. readMessage: each round reads a byte, so
-- the length of the input and one is enough. readNextCommand: each message that it reads takes a
-- byte, so the same is enough. writeRawMessage: each round but the last writes at least a byte of the
-- payload when the chunk size is not 0, so its length and one is enough. The thresholds of
-- compareRoutes, which are floating point there, are over the integers. Times are in nanoseconds from
-- Go's zero time.
--
-- Parameters. The pattern language of gomoqt (Moqt in Token/Grant), and the base64url and JSON
-- decoding and the Ed25519 signature of a token (Wire in Token/Claims): nothing is assumed of them.
-- The conversions between int64 and float64 (Floats in Rtmp/Amf0): where a date is carried, they give
-- its milliseconds back. A frame of gomoqt is its payload. How many bytes an RTMP connection has read
-- ahead of its chunks (counted in Rtmp/Chunk) is any number.
--
-- Not modelled: the network, the metrics and logs, the stage collector of the group ring (which does
-- nothing in the default build), how long a timer takes, appends to one cache by several goroutines
-- at once (the relay has one filler per cache), signing tokens, and the parts of the repository that
-- are not named above.
pub mod Auth
pub mod Common
pub mod Relay
pub mod Rtmp
pub mod Token
