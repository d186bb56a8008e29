-- ===== src/Lib.antt =====
-- A model of the update service (Go): an HTTP service that takes in firmware updates as
-- operations, stores them in MariaDB, hands them to worker nodes over NATS, and keeps their events.
--
-- How the parts fit together. A use case (internal/application/operations) reads and writes the
-- tables through the repositories (internal/infrastructure/mariadb/repositories), appends events
-- and publishes messages. A worker publishes events in return, and the coordinator
-- (internal/app/role.go) handles them.
--
-- The files.
--   Base           native numbers and texts, lists, decimal and hexadecimal texts (fmt), and Base.Table:
--                  a table as the list of its rows, with SELECT, UPDATE and DELETE; Base.Order:
--                  ORDER BY a number; Base.Collation and Base.Paging: ORDER BY a text, and pages.
--   Domain         internal/domain: Operation, Transition (the guard of status changes), Job (jobs,
--                  attempts, transfers and chunks), Node, Event; Json is a value of encoding/json.
--   Effect         the monad that the methods run in. `Env` stands for what is not in the
--                  repository: which of the calls fail, what the clock shows, what randomness gives.
--                  `World` is the tables, the files, the published messages and the number of calls
--                  made. An outcome is a return, an error or a panic. Effect.Tables has the tables,
--                  Effect.Post the rules that follow an action through its `do` block.
--   Repositories   one module for each repository: Operations, Jobs, Attempts, Transfers, Chunks,
--                  Idempotency, Events (with the results), Nodes, Heartbeats. A method keeps its name,
--                  in small letters: `OperationRepository.Update` is `Operations.update`.
--   UseCases       Create, Cancel, Retry, Upload (file.go), Query (get.go and result.go), Dispatch and List:
--                  `Execute` is `execute`.
--   Scheduling     internal/application/scheduling: the choice of a worker.
--   Nats           internal/infrastructure/nats: the subjects, and the ways to publish.
--   Transfer       internal/infrastructure/transfer: Sender has the chunks of a file and their headers,
--                  Active and Receiver the transfer that is being received, `handleChunk` and
--                  `FinalizeTransfer`, Accept `AcceptTransfer`. A file is the list of its bytes.
--   EndToEnd       a dispatch's command and chunks at the worker that takes them in.
--   Coordinator    internal/app/role.go: the consumer of the events, and its handlers.
--   Worker         internal/app/role.go: the commands a worker takes, its wait for a transfer, its
--                  registration and its heartbeats.
--   Config         internal/config/config.go: `ParseSize`, in 64 bits, and `Validate`.
--   Http           internal/operation/handler.go with Handlers (creation, listing, reading) and Commands
--                  (upload, cancellation, retry, result); Routes is internal/app/router.go with the
--                  middleware. What gin makes of a request is a record.
--   Elastic        internal/infrastructure/elasticsearch: the document for the index, and the indexer's
--                  channel, workers and dead letters, as a function of the order of their steps.
--   Tests          test data, runs, and the theorems at concrete inputs.
--
-- What is simplified. A time is a number of nanoseconds, and counts and versions stay below the
-- range of their columns. Contexts are left out, and so are log lines, but where one can panic. A
-- row is what the driver scans; a statement runs alone, and several of them run in the order of the
-- code, so two writers are two sequences of actions. A call to the outside fails or not as `Env` says, so that a theorem for
-- every environment covers each place where a method can be cut short. No definition needs fuel
-- but one: the loops are over lists, and a number is written digit by digit with its own value as
-- bound. The worker's wait calls itself without a bound: it runs over the rounds of messages that
-- come during its pauses, and says so when it still waits behind the last one.
--
-- What is not modelled: the loading of the configuration and the start of the service, which name
-- settings and connect the parts, and the clients of NATS and Elasticsearch but for publishing and
-- subscribing, which are calls of their libraries. The middleware that no route uses and the unused
-- TransferSender.Execute are left out.
pub mod Base
pub mod Domain
pub mod Effect
pub mod Nats
pub mod Repositories
pub mod UseCases
pub mod Transfer
pub mod Scheduling
pub mod Coordinator
pub mod EndToEnd
pub mod Worker
pub mod Config
pub mod Http
pub mod Elastic
pub mod Tests
