-- ===== src/Lib.antt =====
-- The ingestion pipeline and the paginated services of the bank ODS.
--
-- Adapters turn deliveries of source systems into Kafka records, the sink lands them in a raw tier in
-- MongoDB, curation turns raw into semantic documents, and services answer queries on them.
--
-- Prelude: Boolean tests, lists, text as code points, dicts, stripping and splitting, integers and
--   decimal numerals, as Python has them.
-- Topics: the table of the feeds (src/ods_ingest/topics.py).
-- Envelope: the headers of a record (src/ods_ingest/envelope.py); `Codec` is UTF-8.
-- State: the `ingest_state` collection (src/ods_ingest/state.py). `Documents` is a MongoDB collection;
--   State.Memory is one in memory.
-- Snapshot.Diff, Snapshot.Merge, Snapshot.Index: the diff of a file against the retained index
--   (src/ods_ingest/adapters/snapshot/diff.py). A Python iterator is a `Stream` that may raise. `merge` is
--   the loop of `sort_merge`.
-- Snapshot.Securities: the adapter of the start-of-day file (src/ods_ingest/adapters/snapshot/securities.py).
--   `Environment` holds the CSV reader, SHA-256 and the timestamp parser. Its `Faults` are what fails
--   outside: the lookup in the ledger, the writing of the index after any of its steps, and the update of
--   the ledger.
-- Files.FixedWidth: the records of the custody file (src/ods_ingest/adapters/file/fixed_width.py).
-- Files.Batches: batches of that file (src/ods_ingest/adapters/file/batches.py).
-- Files.Watcher: the landing directory (src/ods_ingest/adapters/file/watcher.py). A call of process_file is
--   a step of `World`; its producer contexts are those of Bus.Producer. Its `Faults` are what else fails:
--   the ledger, the dead letters and the move of a file.
-- Curation.Decode: zoned decimals, dates and julian dates (src/ods_ingest/curation/decode.py). The default
--   context of decimals, of 28 digits, is `in_context`.
-- Curation.Stats, Curation.Reference: the counts and the lookup tables of a run
--   (src/ods_ingest/curation/base.py, resolve.py).
-- Curation.Custody, Curation.Cash, Curation.Vendor, Curation.Crm: the four curators
--   (src/ods_ingest/curation/custody_positions.py, cash_movements.py, vendor_securities.py,
--   crm_accounts.py). Crm.Master has the client snapshots, Crm.Events the operations that events become,
--   and Crm.Accounts what they do to the collection.
-- Sink.Extractors: Debezium's change events (src/ods_ingest/sink/extractors.py).
-- Bus.Producer: `TopicProducer` as a context manager (src/ods_ingest/bus/producer.py); `Kafka` is the
--   client, which delivers each message once and promises no order, since a topic has several
--   partitions. The snapshot adapter runs in such a context and concludes by its error.
-- Bus.Dlq: dead letters (src/ods_ingest/bus/dlq.py), which the consumer publishes.
-- Bus.Consumer: polling, handling and committing (src/ods_ingest/bus/consumer.py). `Setup` holds the
--   deserializer, the handler and the stage. `Run` is the consumer with all that it has changed, and
--   its effects are a history, so that a crash is any prefix of it. What the broker returns and the
--   clock are the `Turn`s, an argument of `run_until_idle`; the loop is a recursion on them.
-- Sink.Writer, Sink.Batch: the guarded writes, and the handler that makes them of a batch
--   (src/ods_ingest/sink/writer.py). `RawTier` is the database, which runs
--   the operations of a bulk write in an order of its own.
-- Poller: one sweep of the vendor's API (src/ods_ingest/adapters/rest_poll/poller.py). A page is tried
--   five times, as in the code; the loop over the pages has fuel, one more than there are pages behind
--   the first, and has no result on less. `poll_once` takes what the pages come to, produces in the
--   context of Bus.Producer, and takes the failure of the last update as an argument.
-- Services.Identifiers: accounts and custody keys (src/bank_ods/services/_common.py).
-- Services.Ops: the reports of src/bank_ods/services/ops.py. The reconciliations stand beside the curator
--   that each explains, in a module Curator; Ops.Status is the state of the feeds and Ops.Release the
--   release checks, and Ops.Collections the reports on single collections.
-- Services.Dates, Services.Generic, Services.Queries: windows of days, the envelopes of results, and the
--   query that each service asks for (src/bank_ods/services/_common.py, generic.py, accounts.py and so on).
-- Models: the declarations of the document models, the registry, and the names that are derived from it
--   (src/bank_ods/models, src/bank_ods/db/indexes.py). A nested model is written out in the annotation.
-- Graphql.Sdl: the schema that is generated from the models (src/bank_ods/graphql/sdl.py).
-- Graphql.Resolvers: the names that resolvers are bound to (src/bank_ods/graphql/resolvers.py).
-- Graphql.Protection: the limits on queries (src/bank_ods/graphql/protection.py). The fuel is one more than
--   there are fragments, which is enough, since a fragment is not followed inside itself.
-- Rest: the statuses of errors, and the routes of the raw tier (src/bank_ods/rest).
-- Services.Cursor, Services.Seek, Services.Paginate: keyset pagination
--   (src/bank_ods/services/pagination.py). `Bson`, `Tokens`, `ValueOrder` and `Collection` are the
--   libraries and the database; `bracket` is the type bracket within which `$gt` and `$lt` compare.
--   `walk` is a client that follows the cursors; its fuel is a number of pages, and one more than there
--   are selected documents is enough, since a page has at least one.
--
-- Numbers that the program only counts with are natural. Texts are lists of code points. Not modelled
-- are the parser of the cash drops, the vendor's timestamps, the loops that run the curators, the
-- aggregations of the services, the validation of documents by Pydantic, the scripts and the vendor
-- stub, and the bindings to web, GraphQL and MCP libraries.
pub mod Prelude
pub mod Snapshot
pub mod Envelope
pub mod State
pub mod Bus
pub mod Files
pub mod Topics
pub mod Services
pub mod Models
pub mod Graphql
pub mod Rest
pub mod Sink
pub mod Curation
pub mod Poller
