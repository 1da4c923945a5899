-- ===== src/Lib.antt =====
-- A model of ragkb, a knowledge base that users upload documents to, with theorems about it.
--
-- The program. The document service (internal/service/document/document.go) takes a file in parts: a
-- request opens an upload, each part is stored and marked, and a completion joins the parts, marks
-- the row of the document and publishes an event for the workers. It works on four ports: the
-- table of documents (internal/infra/mysql/document_repo.go), the progress of uploads
-- (internal/infra/redis/upload_progress_store.go), the objects
-- (internal/infra/minio/object_store.go) and the events (internal/infra/kafka/producer.go), and asks
-- the tenants of a user, which the user service (internal/service/user/user.go) sets, in the tables
-- of internal/infra/mysql/user_repo.go. The auth service (internal/service/auth/auth.go) registers
-- users with their private tenants and issues tokens (internal/pkg/token/token_manager.go), the
-- refresh tokens good as long as a store (internal/infra/redis/refresh_token_store.go) has them. The
-- handlers (internal/handler) turn requests into calls of the services, and their results and errors
-- into responses (internal/response/response.go); the server (internal/server) lets a request with
-- an access token through to them. A worker (internal/infra/kafka/consumer.go) takes messages from
-- its group, hands each to a handler, and writes a dead letter for one that fails. The parts are
-- wired by internal/bootstrap from the configuration (internal/config), and run by the two processes
-- of cmd, which serve until a signal comes.
--
-- The files.
--   Base, Text, Json: lists, Go's integers, byte strings, decimal numbers, encoding/json;
--     Text/Collation: how columns are compared
--   Fault: the errors of all packages, errors.Is and `%w`
--   Action: calls that return a value, an error or a panic, and change a state; Action/Program: calls
--     one at a time, so that others can come in between; its Safe: an invariant that they keep
--     whatever others do; its Pool: programs that run at the same time
--   Domain/Document: internal/domain/document (document.go, event.go); Domain/Document/Repo: the
--     repository.go there, with what each call that returns no error has done
--   Domain/User: internal/domain/user (user.go and repository.go)
--   Infra/Mysql: GORM; Infra/Mysql/Documents: document_repo.go and errors.go; its Laws: that they
--     fill the interface of the domain
--   Infra/Mysql/Users: user_repo.go; its Members: lists of memberships; its Laws: what happens to
--     memberships; its Accounts: who can log in, by name; its Repos: that the two repositories fill
--     the interfaces of the domain
--   Infra/Redis: the commands of Redis; Infra/Redis/Progress: upload_progress_store.go; its Laws:
--     that it fills the interface of the service; its Refines: that it refines sets of parts
--   Infra/Minio: the MinIO client and object_store.go; its Keys: the keys of parts and files
--     against each other; its Laws: that it fills the interface; its Removal: RemoveObject
--   Infra/Clients: client.go of internal/infra/mysql, internal/infra/redis and internal/infra/minio
--   Infra/Kafka: the writer of kafka-go and producer.go; Infra/Kafka/Consumer: consumer.go; its
--     Laws: messages are settled before they are committed; its Retry: how often a handler is called
--   Service/Documents: document.go, a function for each method; its Ports: the interfaces that the
--     file declares; Types: its structs; Access: ownership; Tenants, Initiate, Complete, Delete:
--     what each call has done; Refusals: uploads that are not begun; Again: what one completion
--     leaves to the next, with Later: what stays of a merged row; Progress: a part that is stored, and a completion that returns; Listing:
--     pages; Stored and Reach: rows and their objects along chains of calls
--   Service/Documents/Requests: the same methods, a call of a port at a time; its Alone: against the
--     methods; Rules, Completing, Keeping: what each call keeps, whatever other requests do;
--     Interleaved: requests that are served at the same time
--   Service/Users: internal/service/user/user.go
--   Service/Auth: internal/service/auth/auth.go and the passwords of internal/domain/user/password.go;
--     its Ports: the interface to the refresh tokens; Session: login; Renewal: refresh and logout;
--     Register; RoundTrip: a registration and the login behind it
--   Token: internal/pkg/token/token_manager.go; its Laws: what a token is worth
--   Infra/Redis/Refresh: refresh_token_store.go; its Laws: that it fills the interface of the service
--   Handler: response.go and RespondError; its Laws: which status each error gets; Types: the data of
--     the replies; Context: a request and the steps that the handlers share, with CurrentUserID
--   Handler/Documents, Handler/Auth, Handler/Users: the handlers and their DTOs, with Laws
--   Server: auth_middleware.go and the handlers of router.go; its Laws: who gets through to which
--     handler; its AccessLog: log_middleware.go; its Routes: the routes of router.go and the engine;
--     Matching: the routes that a request fits; Routes/Laws: the handler that a path leads to;
--     Refusals: requests without a token
--   Config: internal/config/config.go; its Load: load.go; Observability: internal/observability/log.go
--   Bootstrap: internal/bootstrap/api.go and worker.go, with Laws; its Opening: opening and closing
--   Commands/Worker, Commands/Api: cmd/worker/main.go and cmd/api/main.go; Exits: how they end
--   Memory: servers in memory that meet all the interfaces, and runs of the model on them
--
-- The correspondence. A Go method is a function of the same name in snake case. A struct is a record;
-- a string is the list of its bytes; int and int64 are integers, with the wrap-around written out
-- where the code computes with them. A method that changes a server is an action on the server's
-- state, and the service is an action on the record of its servers' states. A condition of a query
-- is a test on rows, and an update is a map over them. `make` with a negative length is a panic,
-- which unwinds all callers. A completion returns the document together with an optional error, as
-- the code does when the event could not be published.
--
-- What is not part of the repository is a parameter: GORM with MySQL, the Redis client, the MinIO
-- client, kafka-go, zap, yaml, golang-jwt, bcrypt, gin with the binding of bodies, net/http's server,
-- the letter case, the spaces and the quoting of Unicode, random identifiers and the clock. What is relied on is
-- what their documentation says of a call that returns no error; a call that fails may have been
-- done or not. The servers in memory show that all this can be met. Texts are compared in the
-- database by its collation, a parameter that may ignore the letter case; in memory it does.
--
-- Requests at the same time. The methods of the document service stand here twice: as actions, one
-- behind the other, and in Service/Documents/Requests as programs, which stop behind each call of a
-- port. A schedule says which request makes its next call. A call of a port is one step: what MinIO is
-- asked one by one there, to remove the parts of an upload, is not interleaved with other requests.
--
-- Processes. The state of a process is where its goroutines stand, its channels, and how often it has
-- closed what it holds; an event is a step of one goroutine, the end of a call, a signal or a time
-- limit, and a history is any list of events that fit each other.
--
-- Fuel. A loop over parts has as many rounds as the count of parts says, and the retries of a message
-- have three. The loop of a worker has no bound in the code: `run n` is its first `n` rounds, for every
-- `n`, and says whether it is still running.
--
-- Not modelled. The auth and the user service are taken one call behind the other only. Keys of
-- Redis do not expire, though the commands that set their expiry are issued, and the progress and
-- the refresh tokens, whose keys begin differently, are two states; memory is not exhausted. A
-- context is what ends the waiting of a worker and the run of a consumer, and is left out
-- elsewhere. Log messages are left out but for the access log, and so are how gin writes JSON and
-- the flag with the path of the configuration. The chat, ingest and search packages have no
-- behaviour to model, the chunk and conversation domains are declarations that nothing uses, and
-- the clients of Elasticsearch, Qdrant, the embedding and the rerank are empty files.
pub mod Base
pub mod Text
pub mod Fault
pub mod Action
pub mod Json
pub mod Token
pub mod Domain
pub mod Infra
pub mod Service
pub mod Handler
pub mod Server
pub mod Config
pub mod Observability
pub mod Bootstrap
pub mod Commands
pub mod Memory
