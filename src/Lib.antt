-- ===== src/Lib.antt =====
-- The ingestion of GitHub events: from a webhook payload to the tables of a tenant and to the
-- canonical events that the other parts of the platform read.
--
-- A webhook reaches the gateway, which puts it on a topic. The connector enriches it; the
-- normalizer turns it into canonical entities, writes these under the tenant of the payload's
-- installation, and stages one canonical event for each in an outbox table, all in one transaction;
-- the relay publishes the outbox. The archiver keeps every raw message. The library models:
--
--   * Gateway           services/webhook-gateway/main.go: `handle_git_hub`, `valid_signature`
--   * Events            libs/go/events/event.go: the canonical event, its types, topics, headers
--   * Connector         libs/go/connector/connector.go: the entities; `Outcome` is Go's `Result`
--   * Github            libs/go/connector/github/github.go: `normalize` is Source.Normalize and
--                       dispatches to `normalize_push` (normalizePush) and the seven others.
--                       Github/Payload has the payloads, Github/Decode their decoding,
--                       Github/Entities the builders of entities
--   * Database          db/migrations: rows, unique keys, and INSERT ... ON CONFLICT on lists of rows
--   * Tenancy           libs/go/tenancy/tenancy.go: `resolve_tenant`, `with_tenant`
--   * Kafka             libs/go/kafka/kafka.go: messages, headers, `to_record` of Write and
--                       `from_record` of Fetch
--   * Normalizer        services/normalizer/main.go: `process`, `persist`, `resolve_contributor`,
--                       `enqueue_outbox`, `mark_delivery`, `dead_letter`. Normalizer/Tables has the
--                       SQL statements, Normalizer/Payloads the payload maps
--   * Relay             services/outbox-relay/main.go: `drain_batch` is drainBatch
--   * Enrichment        services/connector-github/main.go: `enrich`, `fetch_enrichment`,
--                       `merge_enrichment`; `process_enrichment` is process
--   * Archiver          services/archiver/main.go and PutIfAbsent of libs/go/objectstore: `archive`,
--                       `tenant_partition`
--   * Consumers         the consumer loop in main of the normalizer, the connector and the archiver;
--                       Normalizer/Consuming, Enrichment/Consuming and Archiver/Consuming are its
--                       services. Consumers/Calls writes down the calls that the loop makes of a
--                       service
--   * GithubApp         libs/go/githubapp: RateLimit is ratelimit.go, Tokens is token.go with
--                       goroutines as schedules in Tokens/Burst, Client is client.go, Queries is
--                       graphql.go, Jwt is jwt.go, Env is env.go, and Replies decodes the answers.
--                       GithubApp/Connected puts this client under the connector
--   * Config            libs/go/config/config.go
--   * Backoff           `backoff` of the normalizer, the connector and the archiver
--   * Json, Base        JSON values and Go's decoding rules; shared names, integers and lists
--   * Examples          concrete messages and tables, and the theorems at them
--
-- Code with effects is an action: a function on a `World`, which holds the tables, the supply of
-- fresh identifiers, the clock of now(), and the fates of the database calls to come. A call is
-- done, is refused, or is done with its answer lost, so a theorem for every world is one for every
-- pattern of failures. A transaction that does not commit restores the tables of its beginning.
-- Row-level security is the check of `scoped`: a statement names the tenant of its rows and is
-- refused in a session of another tenant. Loops are recursion on lists, so no fuel is needed.
--
-- Not part of the repository, and so parameters: the JSON lexer and printer, RFC 3339 times and
-- strings.ToLower (`Codec`), json.Marshal of an event, SHA-256 and the texts of JSON errors (`Library`), the HMAC of
-- the gateway (`Crypto`), HTTP, RSA signatures and base64 (`App`), and the trace headers of
-- OpenTelemetry. Instants are nanoseconds since Go's zero time. UUIDs and generated ids are numbers
-- from the supply of the world. The numbers of a payload are integers of 64 bits, or the payload is
-- not decoded.
--
-- The GitHub App client is an action on a `Process`: its cache of tokens, its budgets, and all that
-- is outside of it, which HTTP and the clock (`Outside`) read and change in any way. A consumer loop
-- goes through a list of what the reader fetched, calls its service, and keeps what it committed.
--
-- Not modelled: the broker's choice of the message that is fetched next; logging, metrics and spans;
-- the start-up of the main functions, and the relay's loop over its passes; the table of detected
-- capabilities; concurrent transactions, which the unique keys of the tables order; the ranges of the
-- columns, of which a violation is a refused call.
mod Base
pub mod Json
pub mod Events
pub mod Connector
pub mod Github
pub mod Database
pub mod Tenancy
pub mod Kafka
pub mod Normalizer
pub mod Relay
pub mod Backoff
pub mod Archiver
pub mod Enrichment
pub mod Gateway
pub mod GithubApp
pub mod Consumers
pub mod Config
pub mod Examples
