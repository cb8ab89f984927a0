-- ===== src/Lib.antt =====
-- A model of the email agent: one run reads the new messages of several IMAP accounts, has a language
-- model classify them, renders a digest, writes keyword flags to the mailboxes, sends the digest to a
-- notification channel, and records in a state store what it did.
--
-- The parts, and the files that model them:
--
--   Prelude        shared notation: Boolean tests, equality, lists, byte strings with the functions of
--                  Go's `strings` that the program calls, UTF-8, integers, association lists for Go
--                  maps
--   Errors         the errors of all parts as values, one constructor for each place that makes one
--   Config         internal/config: config.go (Config), validate.go (Config/Validate)
--   Mail           internal/mail: types.go and ingester.go (Mail/Types, Mail/Key), classification.go
--                  (Mail/Classification), pool.go (Mail/Pool), sanitize.go (Mail/Sanitize: the state
--                  machine of `StripHTML` in Tags, `DecodeEntities` in Entities, the header functions
--                  in Header, the rest in the parent), fetch.go and the reconnecting
--                  of client.go (Mail/Imap)
--   Store          internal/store: store.go (Store), noop_store.go (Store/Noop), sqlite.go
--                  (Store/Sqlite: the tables and the clock texts in the parent, the operations in
--                  Runs, Messages and Summaries, the interface in Ops)
--   Llm            internal/llm: llm.go (Llm, Llm/Registry), prompt.go (Llm/Prompt), parse.go
--                  (Llm/Parse)
--   Digest         internal/digest/digest.go
--   Orchestrator   internal/orchestrator/orchestrator.go: the world of a run (Orchestrator/World),
--                  `fetchWindow` (Window), `classifyWithPartialFallback` (Classify),
--                  `buildDigestStats`, `topN`, `buildHighlights` and `buildDigestDataPartial` (Stats,
--                  TopN, Highlights, DigestBuild), the flags and records of a run (Delivery),
--                  `parseSender` (Sender), `truncateExcerpt` (Excerpt), and `Run` itself (Run)
--   Notify         internal/notify: notify.go (Notify), telegram/telegram.go (Notify/Telegram)
--   Cmd            cmd/emailer/main.go: `parseMainFlags` (Cmd/Flags) and `run` (Cmd/Main)
--   Examples       sample data, and runs of the model on it
--
-- The definitions keep the names of the source in lower case: `ParseResponse` is `parse_response`.
-- A type of the source is a record or data type, a Go map an association list, a string or byte slice
-- a list of bytes, `int`, `time.Duration` and `time.Time` integers (an instant counts nanoseconds),
-- an optional pointer `Option`, a value with an error `Result` or a pair. The Go integers are not
-- wrapped: the code counts messages and subtracts durations from instants.
--
-- The orchestrator's stateful code is written in `Act S`, state passing over a `World S`: the state of
-- the store, how often the clock was read and the provider called, and the trace of what left the
-- process. `Store.StoreOps` is the interface of the store over an abstract state `S`, and
-- `Store.Noop.noop_ops` fills it with the store in memory, `Store.Sqlite.Ops.sqlite_ops` with the
-- database: its tables are lists of rows, each SQL statement is written as what it does to them, and
-- every statement may fail as the driver's `fault` says. `Store.DedupLaws` is what a client of that
-- interface may rely on. The goroutines of `FetchAll` are a schedule: each writes its own slot of the
-- results, in any order.
--
-- `Cmd.Main.main` composes the program: the flags, the configuration and its validation, the store, the
-- IMAP connections, and the pipeline of Orchestrator, with what is opened and closed as a list of
-- events. `Notify.Telegram.send` gives the outcomes of its requests with its result.
--
-- Parameters of the model, since their code is not here or is not modelled: the IMAP accounts (as the
-- answers of an `Ingester`), the sets of UIDs of go-imap and the answers to its commands, the language
-- model, the renderers, the channel of a run, the clock, the SQLite driver, `Format` and `Parse` of
-- package `time`, `time.ParseDuration`, crypto/rand, the HTTP client, `json.Unmarshal`, SHA-256, the
-- case tables of `strings.ToLower` for bytes outside ASCII, the loading of the configuration, and the
-- texts of errors.
--
-- Fuel: the digit loop of `itoa` runs on the ten bytes of its buffer, which hold every 32-bit number;
-- the digits of `decimal` run on the number itself; the loop of `chunkUIDs` runs on the number of UIDs,
-- and the loop of `StripHTML` runs on the length of the text, since each round takes a byte at least.
-- All other loops are structural: those that advance by a whole rune or entity count the bytes that are
-- still to pass.
--
-- Not modelled: the commands of the IMAP client and its loop over folders, ConvertCharset, the
-- providers' HTTP clients, opening and migrating the database, the renderers, the jitter of the delays,
-- the loading of the configuration, logging and signals.
pub mod Cmd
pub mod Config
pub mod Digest
pub mod Errors
pub mod Examples
pub mod Llm
pub mod Mail
pub mod Notify
pub mod Orchestrator
pub mod Prelude
pub mod Store
