-- ===== src/Lib.antt =====
-- A model of a chat system of several servers: a Go repository whose services speak gRPC and keep
-- their state in PostgreSQL, MongoDB and Redis. This library models the parts that hold the system's
-- own logic, function by function, and proves what makes them correct.
--
-- The parts and the files that model them
--   * The room actor. A room's messages are numbered, delivered and queued for persistence by one
--     goroutine, a hub, on the server that holds the room's lease.
--     Websocket/Message models internal/websocket/hub/message.go, Websocket/Session the outgoing
--     queue, the close frame and the rounds of readPump of internal/websocket/hub/session.go, and
--     Websocket/Hub with Hub/Broadcast, Hub/Events and Hub/Start internal/websocket/hub/hub.go:
--     fanOut, handleBroadcast, enqueueBroadcast, initializeSequence, the select loop of run, drain
--     and shutdown. A `Hub` is the struct; an `Actor` is a hub with its place in the loop, the
--     channels that it shares with the workers, and the tasks that they have taken. A step is one
--     event: a case of a select, or an action of a goroutine around the hub.
--   * Persistence. Workers save the queued messages in batches and retry what failed:
--     Websocket/Persistence models savePersistTasks, enqueuePersistRetry, runPersistenceWorker,
--     runPersistenceRetryWorker, processRetryBatch and drainRetryBatch of
--     internal/websocket/hub/manager.go.
--   * Ownership. Websocket/Lease models the Lua scripts and calls of internal/websocket/roomlease,
--     Websocket/SequenceFloor those of internal/websocket/roomseq and
--     internal/websocket/hub/sequence_floor.go, and Websocket/ManagedLease how
--     internal/websocket/hub/manager.go renews leases and gives them back: renewLeases, releaseLease,
--     releaseLeaseWhenReady and what they call. Websocket/Manager models the select loop of
--     Manager.Run in the same file, with getOrCreate, and Manager/Registration the hand-over of a
--     registration, with the ways in which the hub's register ends. A `Front` is the loop's map
--     of hubs with the manager's leases and the goroutines that wait; Redis is shared with the
--     other servers. The hub of a next owner starts from the greater of the floor and the number
--     stored.
--   * Messages. Chat/Repository and Chat/Service model internal/chat, and Chat/Store
--     internal/websocket/store.go, by which the workers of a hub reach it.
--   * Accounts and rooms. User/Db models the statements of internal/user/db as functions on tables,
--     with the keys and cascades of db/migrations/postgres; User/Tx the transactions that
--     cmd/user-service/main.go runs; User/Validation internal/user/validation.go; User/Rooms with
--     Rooms/Joining and Rooms/Managing the methods of internal/user/service.go on rooms, members and
--     the deletion of a user. User/Tokens models the scripts and methods of
--     internal/user/refresh_token_store.go, and User/Accounts the methods of service.go that create
--     and verify a user and refresh or revoke a token.
--     User/Hasher models internal/user/hasher as a step relation, the pool of workers for passwords.
--   * Limits. Shared/RateLimit models internal/shared/ratelimit/memory.go, the token buckets that a
--     session is held to.
--   * Requests. Shared/Http models what internal/shared/httpio makes of a body and of a response, and
--     Shared/Middleware internal/shared/middleware and internal/shared/auth: who is let through to a
--     handler, with the limiter of internal/shared/ratelimit/redis.go. A handler is a function of the
--     request and the state behind it; a chain of middlewares is a list, the outermost first.
--   * Membership. Every websocket server keeps a key in Redis (Shared/Keyspace), and a watcher in
--     every gateway and server puts the servers that it finds on a hash ring. Shared/Membership models
--     registry.go and watcher.go of internal/shared/membership, and WsGateway/Ring
--     internal/wsgateway/loadbalance. The ring says which server owns a room.
--   * The websocket gateway. WsGateway/Tickets models internal/wsgateway/ticket_store.go and
--     WsGateway/Handlers the handlers, proxies and routes of internal/wsgateway: a user with a token
--     gets a ticket for one connection, and the gateway passes the connection on to the room's owner.
--     A `Gateway` is the struct Router with the keys in Redis and the requests that were passed on.
--   * The websocket server. Websocket/Front models internal/websocket/handler_ws.go, which asks the
--     user service for the membership, compares the owner on the ring with itself, and registers the
--     connection by Websocket/Manager; Front/Internal models handler_internal.go and router.go.
--   * The REST gateway. ApiGateway has the requests, clients and errors of internal/apigateway,
--     ApiGateway/Rooms, ApiGateway/Messages and ApiGateway/Users the handlers of handler_room.go,
--     handler_user.go and handler_token.go, and ApiGateway/Routes router.go. A handler adds what it
--     does to a log: its calls of the services, the cookies that it sets, and what it starts in the
--     background, a message to a room or the closing of one.
--   * Common has the names that all of them share, Grpc the status codes of gRPC, and Examples the
--     runs at concrete inputs.
--   The other modules below these hold proofs and are named for what they prove.
--
-- How the code is read
--   * Integers of a fixed width are their bit patterns, with the wrap-around written out: the
--     counters of a hub are int64, capacities int32. Times are numbers, in the unit of the code.
--     Dates in MongoDB are in milliseconds, to which the driver rounds a time down.
--   * Code outside the repository is a parameter or an input: the LRU cache of an idempotency
--     check (with its laws for keys just added or found), json.Marshal, uuid.NewV7, uuid.Parse,
--     the clock, rand.Int64N (with its bound), bcrypt, SHA-256, JWT, the answers of MongoDB and
--     the network to Redis, the double that Lua's tonumber gives (with its order and its exact
--     range), the library of the hash ring (with its laws of members), the limiter on Redis, the
--     answers of a proxied server, and in the gateways the clients of the other services. A
--     failing database is a function that says which statements fail, before they take effect.
--   * Go maps are association lists with at most one entry for a key, channels are lists with their
--     capacity, and pointers that the code compares are numbers.
--   * Loops over lists are structural recursion. The only fuel is in the decimal digits of a limit,
--     where a number has at most one digit more than itself.
--
-- What is not modelled
--   * Logs, metrics, traces and the texts of errors.
--   * A hub's step is atomic: an acknowledgement of a worker falls between two steps and never
--     into the middle of one. Transactions on a room follow one another, which the row lock of
--     GetRoomForUpdate stands for.
--   * The manager without a lease store, and its shutdown.
--   * The wiring of the services, their configuration, the creation of JWTs, logging around handlers
--     and recovery from a panic. Of a response the status, the payload and the cookies are kept, of
--     its other headers none but Retry-After for a connection; a failing request in the background
--     is only logged by the code.
--   * The matching of a request to a route by net/http: a request comes with its route. A request
--     body is decoded by encoding/json, which is an input.
--   * Floating point: the tokens of a rate limiter are exact, with whole tokens for each second.
--   * In User/Tokens/Reuse the clocks of the servers and of Redis agree and one TTL is configured;
--     the definitions themselves take both clocks.
--   * A drain's ticker and timer are events that come at any time; durations are not measured.
pub mod Common
pub mod Grpc
pub mod User
pub mod Chat
pub mod Shared
pub mod ApiGateway
pub mod WsGateway
pub mod Websocket
pub mod Examples
