-- ===== src/Lib.antt =====
-- A service that keeps companies in PostgreSQL, behind HTTP, and announces each change as an event
-- that is stored in an outbox in the same transaction.
--
-- The parts, and the files that model them:
--
--   Errors       internal/domain/company/errors.go, and of the package `errors` what the code uses:
--                the sentinels, ValidationError, wrapping by %w, errors.Is and errors.As.
--   Action       a Go function that returns a value and an error and changes a state `S` is a
--                function S → Result A × S; an early return on an error is the bind of a do block.
--                Action/Keeps has the rules by which an invariant passes through such a function,
--                Action/Inversion what a success of a chain says of its steps, Action/Fails what is
--                known of its errors.
--   Domain       internal/domain/company/company.go and type.go: Company.Validate is
--                Domain.validate, NewWithID is new_with_id, Company.ApplyPatch is apply_patch, with
--                the receiver as its state. A map of fields is a list with one entry a key.
--   Application  internal/application/company/entities.go: the interfaces are records of actions on
--                one state, which stands for all that lies behind them.
--   Service      internal/application/company/service.go: the use cases create_company,
--                patch_company, delete_company and get_company, with a producer or an outbox. The
--                closure that a use case hands to WithinTransaction is a definition of its own
--                (create_in_tx, patch_in_tx, delete_in_tx), and returns what the Go closure assigns.
--   Json         encoding/json on JSON trees; Json/Events has the payload of an event.
--   Postgres     internal/infrastructure/postgres: company_repository.go is Postgres/Companies,
--                outbox_repository.go is Postgres/Outbox, transaction.go is Postgres/Tx. A statement
--                is a value of Statement; Postgres/Columns has the columns that those on
--                companies name, and what scanCompany reads of them. A World has the committed rows
--                and the rows that the open transaction sees; executorFromContext chooses between the
--                two. A Commit that fails may have committed all the same.
--   Wiring       cmd/api/main.go puts the service together on these repositories. Wiring/Create,
--                Patch, Delete and Invariant have what the whole then does, in the terms of
--                Wiring/Spec; Wiring/Atomic has the transaction alone, Wiring/Success when
--                CreateCompany succeeds, Wiring/Removal when DeleteCompany and GetCompany do,
--                Wiring/Amendment when PatchCompany does and what it fails with otherwise.
--                Wiring/Responses and Responses/Creating have what POST /companies is then answered,
--                Responses/ById what DELETE and GET /companies/{id} are, Responses/Patching what PATCH
--                is, and the other files the steps.
--   Publisher    internal/infrastructure/outbox/publisher.go: NewPublisher, ProcessBatch and Run; the
--                loop of Run is driven by the list of the signals that its select takes.
--                Wiring/Publishing puts the publisher on the repositories, as main does:
--                Publishing/Spec has what a batch of events promises, Publishing/Atomic the batch as one
--                transaction, Publishing/Success when it succeeds.
--   Wiring/System  the running program as a step relation: requests and batches, one transaction
--                after the other in any order, and other clients that change no row in between.
--                Wiring/NoLoss has what it is that an outbox does not lose, System/Taken what a row
--                that is published says of the producer, Wiring/Draining how many batches empty the
--                outbox, and Wiring/Announcing what becomes of the event of a successful call.
--   Events       internal/infrastructure/events: the choice of the producer in factory.go, and the two
--                producers; Events/Payload has the payload of a message for Kafka, Events/Kafka what it
--                tells apart, Events/Log is about batches with the log producer.
--   Config       internal/config/config.go, with strconv.Atoi in Config/Numbers and time.ParseDuration
--                in Config/Durations. Config/Load, Csv and Decimal have what is read of the environment.
--   Token        cmd/token/main.go.
--   Startup      cmd/api/main.go: main up to the point where the server and the publisher run, and in
--                Startup/Process the process behind it as a step relation, up to its end. Of this,
--                Process/Made has what main makes of the configuration, Process/Requests what one
--                request does to the rows, Process/Runs and Process/Quiet what whole runs do, and
--                Startup/Tokens what a printed token opens.
--   Http         internal/interfaces/http: dto.go and response.go in Http, the decoding of a body in
--                Http/Decode, handlers.go in Http/Handlers, middleware.go in Http/Auth, router.go in
--                Http/Router.
--   Jwt          internal/infrastructure/auth/jwt.go.
--   Postgres/Pool  internal/infrastructure/postgres/postgres.go: NewPool.
--   Sample       a database in memory and a codec that meet the laws, and runs on them.
--
-- What is not in the repository is a parameter. PostgreSQL is the record Postgres.Postgres: what a
-- statement, a Begin, a Commit or a Rollback does, errors included. Postgres/Laws has what is
-- documented of it: a statement that succeeds changes the rows it names, in the tables of
-- migrations/ with their keys, and one that fails changes none; when a statement fails is left open
-- there. After an error of Commit the rows may be committed all the same, as they may be where the
-- connection is lost or the context cancelled while COMMIT runs: `committed_anyway` decides, and
-- nothing is assumed of it. Postgres/Pending has what is documented of the query for the pending
-- events: each row once, unpublished, due, the older rows first, no more rows than the limit, and
-- every such row if there are fewer. Postgres/Clock has that now() does not go back.
-- Postgres/Available adds what a reachable server does with statements that break no constraint of
-- migrations/ and whose arguments are values of their columns (an amount of 32 bits, texts without
-- NUL, times in the range of timestamptz), and with an identifier that is taken. Sample/Memory
-- shows that the laws can hold. The texts of UUIDs and times are the record Json.Codec, with
-- CodecLaws, and PlainCodec of Postgres/Available for their characters; the clock and the source of
-- identifiers are Postgres.Machine; the JWT library is Jwt.JwtLibrary, with Jwt/Accepted.JwtLaws,
-- Token.SigningLaws and Startup/Tokens.PlainLaws; pgxpool is Postgres/Pool.PoolLibrary, with
-- PoolLaws; a row of a table is Postgres/Columns.RowLibrary, with RowLaws; the logger of zerolog is
-- Events.Logger, the writer of kafka-go Events.KafkaWriter. The shutdown of net/http's server is a
-- function that Startup/Process takes, with IdleLaws of Process/Runs for the calls that send no
-- statement. The environment is a function from keys to texts, and the arithmetic of floating point
-- in a fraction of a duration is the parameter float_part.
--
-- Nothing runs on fuel: the loops over the rows of FetchPending, over the events of a batch, over
-- the parts of a list and over the characters of a text are by recursion on these, and the loop of
-- Run is by recursion on the signals. An instant is a natural number of nanoseconds, a UUID the
-- number of its sixteen bytes. A Go `int` is a signed number that the code only compares; its range
-- of 64 bits counts where JSON or the environment is read, and the conversion to 32 bits in Load
-- wraps around. The uint64 sums of ParseDuration wrap around too.
--
-- Not modelled: the order of the members that jsonb gives back, which the decoding does not see, as
-- the keys differ; a token that expires during a run, as the library's clock is left as it is; two
-- transactions at the same time and the locks between them; a cancelled context beyond the errors
-- that it makes the libraries return; log lines, but for those of the two producers; the parsing of
-- JSON text and the order of the members of an error's fields; chi's matching of paths and its
-- middlewares; the HTTP server itself, beyond its handler and its shutdown; generated code (mocks,
-- docs).
pub mod Common
pub mod Errors
pub mod Action
pub mod Domain
pub mod Application
pub mod Service
pub mod Json
pub mod Postgres
pub mod Wiring
pub mod Sample
pub mod Http
pub mod Publisher
pub mod Config
pub mod Events
pub mod Jwt
pub mod Token
pub mod Startup
