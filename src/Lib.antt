-- ===== src/Lib.antt =====
-- incord: the chat backend of this repository, in Go.
--
-- Its services answer gRPC calls from a Postgres database, a Redis store and a NATS bus. A call
-- passes the rate limit and the check of its token, a service asks the permission client and the
-- blocks between users, changes the tables and publishes events. The development models six of the
-- parts that decide something, and the splitter of SQL text that applies the migrations:
--
-- - Base: the helpers of all parts. Base/Tests has the Boolean tests and case splits, Base/Lists the
--   searches and updates that SQL statements become, Base/Bytes the Go strings as lists of bytes,
--   Base/Int the integers of positions, Base/Action the calls that read and write a state and may
--   return an error.
-- - Friends: internal/features/user/service.go (SendFriendRequest, AcceptFriendRequest,
--   DeclineFriendRequest, CancelFriendRequest, RemoveFriend, BlockUser, UnblockUser) and
--   block_checker.go. Friends/Rows is the table `friendships` with the queries of
--   gen/db/friendships.sql.go, Friends/Spec the abstract bond of two users. A call takes the rows
--   and the published events to new ones; an Env says which queries fail.
-- - Authz: internal/shared/authz/client.go. Authz/Names has the keys and the table
--   PermissionRelation, Authz/Tables the rows and the queries, Authz/Pool the database pool and the
--   UUID codec, Authz/Layers the loop of applyChannelOverride, Authz/Cache the cache of
--   resolveChannelGuild, Authz/Checks the checks (Check, checkChannel, CanActOn), Authz/Wrappers
--   the methods Can*, Authz/Writes the writes of roles and overrides, Authz/Lists the listings. A
--   nil client is `none`.
-- - Guilds: internal/features/guild/service.go, which calls the permission client of Authz on the
--   same tables. Guilds has the state (the tables and the published events), an Env (which statements
--   and which checks fail, the time, what is drawn) and the events, Guilds/Rows the rows and queries
--   of gen/db/guilds.sql.go and gen/db/roles.sql.go, Guilds/Membership the guilds and their default
--   role, Guilds/Invites PreviewInvite and JoinGuild, Guilds/Moderation leaving, kicks, bans, new
--   invites and TransferOwnership, Guilds/RoleCalls the roles, Guilds/Assets the pictures, and
--   Guilds/Requests a server that answers one call after the other. Guilds/Changes is the abstract
--   view: the changes that the tables can undergo, with the guards that the invariants need. Guilds/Rules has the rules by which the
--   calls are followed statement by statement.
-- - RateLimit: internal/shared/middleware/ratelimit.go. RateLimit/Redis is what Redis
--   documents of the commands INCR and EXPIRE, RateLimit/Quotas the callers and limits as a table.
-- - Auth: internal/features/auth/service.go and repository.go. Auth/Store is the store of refresh
--   tokens and one-time passwords with bcrypt and the signer, Auth/Accounts the allocation of
--   handles and Register.
-- - Messages: the list of the mentioned users and the search for @everyone and @here, of
--   internal/features/message/service.go. Messages/Scan has the laws of the inner loop.
-- - Presence: internal/features/presence/service.go. Presence/Store is the Redis hash of a user.
-- - SqlUtil: internal/shared/sqlutil/split.go, round by round of the loop of SplitStatements.
--
-- The other modules hold proofs, and those named Examples the theorems at concrete inputs.
--
-- A SQL table is a list of rows, and a query a search through it: EXISTS is `any`, WHERE is
-- `select` or `first`, UPDATE is `update`, and ON CONFLICT a test for the key. Foreign keys and
-- failing queries make a statement fail. Ids are numbers or byte texts, times are natural numbers
-- of nanoseconds (in Presence of seconds, with the nanoseconds beside them), and a call names the
-- time at which it runs. Redis, the UUID codec, bcrypt, the token signer, the mailer, the object
-- store and its signer are parameters; the laws that are asked of Redis (what INCR and EXPIRE do
-- to a key, and that a store reads back what was set until its time is over) are records of
-- hypotheses.
--
-- The functions recur on a list, SplitStatements on the text, the attempts of
-- CreateUserWithUsername on the ten numbers that it draws; the search for a mention of everyone
-- takes fuel, and more than the length of the text is enough.
--
-- Not modelled: the channels, voice and media services, the messages but for the mentions, the
-- event streams, the handlers (request decoding and status codes), the wiring and configuration,
-- and the generated code but for the queries above. Concurrent transactions are not interleaved: a
-- call runs alone. Timestamps of rows, the order of listings and log messages are left out, and in
-- the guilds the name of an inviter. Integers keep no width: positions and counters are far from
-- the bounds of their columns.
pub mod Base
pub mod SqlUtil
pub mod Friends
pub mod Authz
pub mod Guilds
pub mod Messages
pub mod RateLimit
pub mod Auth
pub mod Presence
