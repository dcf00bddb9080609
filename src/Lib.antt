-- ===== src/Lib.antt =====
-- dsh-passwords: a password gate and permission gateway in front of a host application. The
-- gateway signs users in, classifies each request of a sub-user, decides which hosts, folders,
-- sessions and endpoints it may reach, takes from each response what it may not see, and carries
-- remote calls over one WebSocket, with a fragmenting sender and a heartbeat on each leg.
--
-- The parts and their files:
--   Mux/Sender      src/remote-mux-sender.ts, `MuxSender` and `MuxSenderBudget`. `enqueue`, `cancel`,
--                   `dispose`, `pump`, `commit`, `on_flush` and `on_drain_poll` are the methods of
--                   the class (`awaitDrain` holds the poll); `fire_flush` is the socket calling the
--                   oldest write callback. Wire reads the frames as the peer does, Invariant says
--                   what holds between calls, Steps, Pump and Accept what each operation does,
--                   Run any interleaving for one sender, Shared what a call does to the budget, Fleet
--                   all carriers with the one budget that they share, Drain how a queue empties.
--   Mux/Heartbeat   src/remote-mux-heartbeat.ts, `MuxHeartbeat`. A pending timer is its due time.
--   Permissions/Host, Permissions/Host6
--                   src/permissions.ts, `isPrivateHost` with the IPv4 and the IPv6 side.
--   Permissions/Endpoint
--                   src/permissions.ts, `parseEndpointRule`, `parseEndpointAllowlist` and
--                   `endpointAllowed`.
--   Permissions/Classify
--                   src/permissions.ts, `classifySubuserPath` and the tests that it is made of,
--                   which call `endpointAllowed`.
--   Permissions/Filter
--                   src/permissions.ts, the response filters: `filterByPathField`,
--                   `filterSessionItems`, `filterSessionSearchItems`, `filterArchivedSessionIds` and
--                   `filterOwnedSessionIds`. Clean, Copy, Owned and Archived hold the proofs.
--   Permissions/Sandbox
--                   src/permissions.ts, the sandbox levels, `forceRejectApproval` (Reject) and
--                   `clampSessionHistorySandbox` (Levels, Clamp).
--   Permissions/Folders
--                   src/permissions.ts, `normalizePath`, `folderAllowed`, `pathWithin` and the tests
--                   of folders; Segments and Dots hold the proofs.
--   Permissions/Extract, Permissions/Sessions, Permissions/Routes
--                   src/permissions.ts, what a request names: the arguments of an envelope, its
--                   paths and workspaces (`search` is the recursion that the extractors share,
--                   `walk` that of the collectors), its sessions, and the tests of methods and paths.
--                   Collected and Authorized are about the sessions that authorise a request, Archive
--                   about the snapshot of the archived ones, and Query about the routes whose target
--                   stands in the query or in the arguments.
--   Mux/Diagnostics src/remote-mux-diagnostics.ts: the normalizers, and in Carrier the state, its
--                   observations, its close and the handle.
--   Gateway         src/gateway.ts: Models the models that a user may see (Groups, Catalog), Redirect
--                   where a login leads to, Cookies what of a request's cookies and query is read
--                   and what goes on to the upstream.
--   Sensitive       src/sensitive-paths.ts, over a record of the functions of the system.
--   Timeline        src/loading-timeline.ts, `LoadingTimeline`, over a type of numbers that is a
--                   parameter.
--   Auth            src/auth.ts, `AuthService.login`, with the tables `login_attempts` and `ip_throttle`
--                   of src/db.ts as lists of rows. `admit` is what runs before the password is
--                   compared and `finish` what runs behind it, each with its own reading of the
--                   clock; Locks and Guarded hold the proofs, and History is about the logins that
--                   follow a lock.
--   Accounts        src/auth.ts, the other operations of `AuthService`, over the rows of `users`.
--                   Input has the checks of names and passwords, Service the operations, each with
--                   its error as a value, Roles the writes of several calls as steps (a removal's
--                   checks and its write are two steps), Callers what a sub-user can do, Atomic and
--                   Verified what a call that throws leaves, Changes and NewUser what a call has done. Sessions is `sessionOf` of src/gateway.ts with
--                   its cache and the revoked tokens; Fresh and Logout are about its calls in any
--                   order.
--   Store           src/db.ts, the tables of what a sub-user may do. Reading is `getPermissions`,
--                   Permissions `setPermissions`, Grants the session grants, Workspaces and Tree the
--                   workspaces and the clean-up of a deleted folder, Intents what is left to clean
--                   up after a restart, Usage the time and the tokens of a day. Sanitize, Sets,
--                   Rows, Baseline, Narrow, Deletion, Refined and Credible hold the proofs.
--   Config          src/config.ts, the settings of the mux and the roots of the directory picker.
--   Sse             src/sse-frames.ts, `SseFrameBuffer`: `push`, `collect` and `flush` by their names. Bounds
--                   is about what is kept, Lines about where a text is split.
--   Json, Posix     parsed JSON with the readings of it that the sources share, and Node's
--                   `path.posix`.
--   Text, Prelude   strings as lists of UTF-16 code units, and what all parts share.
--
-- Fuel and bounds: `private_host_from` has one unit of fuel more than the host has characters, and
-- each inner call is on a shorter text; `parse_rule_from` has three passes, as the two prefixes are
-- read at most once each. Numbers of the sources stay in the safe integers, as they count bytes,
-- messages and milliseconds; `split_frames` is run with the length of its text, and each empty line
-- takes up characters; the numbers of an address literal are only compared when large.
--
-- The functions on JSON go down to the depth that the source names, so they end by the structure of
-- the value. `toLowerCase` on a drive letter is that of ASCII.
--
-- Accounts and Store are two views of one database: `addSubUser` writes the row of Accounts and calls
-- `set_permissions` of Store. A transaction of src/db.ts runs alone, as its code has no `await`. Two
-- hashes of names may be equal, which the unique index refuses. Times do not have to go forward but
-- where a theorem says so.
--
-- Not modelled: what `bcryptjs`, `jsonwebtoken`, `ws`, `node:crypto` and the database engine do, the
-- HTTP and WebSocket plumbing of the gateway and the proxy, the browser client, installation and
-- update, in src/db.ts the migrations, the messages, the media, the audit rows and the settings, and
-- from src/permissions.ts the cleaning of message texts, which is a chain of regular
-- expressions, and the date. From src/loading-timeline.ts `spanAsync`, the summary and the sampler are
-- left out. Callbacks that an owner passes to the sender or the heartbeat are taken not to call back
-- into it, and a value on which a function of src/permissions.ts works in place has no second owner.
pub mod Prelude
pub mod Text
pub mod Json
pub mod Posix
pub mod Mux
pub mod Permissions
pub mod Auth
pub mod Store
pub mod Accounts
pub mod Config
pub mod Sse
pub mod Gateway
pub mod Sensitive
pub mod Timeline
