-- ===== src/Lib.antt =====
-- libsql-client-go: the Go client of libSQL servers.
--
-- The program takes SQL from database/sql. sqliteparserutils cuts a text into statements by the
-- tokens of a generated lexer; libsql/internal/http/shared gives each statement its share of the
-- arguments; libsql/internal/hrana builds the requests of the Hrana protocol and decodes the
-- responses; libsql/internal/http/hranaV2 keeps a connection (baton, replication index, closed
-- stream), sends requests over HTTP and implements database/sql's driver interfaces; rows come back
-- through a cursor. libsql/internal/ws is a second transport, over a WebSocket.
--
-- Files:
-- - Base and its children: Go strings as lists of bytes (Texts), decimal numbers and int64
--   (Decimal), base 64 without padding (Base64), lists, slices, results, Boolean tests.
-- - Tokens: what the lexer gives. The lexer itself is generated: its tokens are an argument.
-- - Tokenizer: sqliteparserutils/buffered_tokenizer.go. Window and Fill read the ring buffer as a
--   window on the tokens of the default channel.
-- - Splitter: sqliteparserutils/utils.go. `next` is `StatementIterator.Next`, `split_statement` is
--   `SplitStatement`. Reference is the single pass that they implement; Refine, Rounds, Whole and
--   Pieces are the proofs, Calls has the calls of `Next` without the tokens, Blocks and Triggers
--   are about CREATE TRIGGER.
-- - Params: libsql/internal/http/shared/statement.go. Extract is `extractParameters`; Share and
--   Named are about the shares of the statements, Ranges about the values in them.
-- - Values: the Go values of driver arguments and results.
-- - Hrana: libsql/internal/hrana. Value is value.go, Batch is stmt.go and batch.go, Request is
--   stream_request.go and pipeline_request.go, Json and Response are the decoding of responses.
--   Request/Transaction runs the conditions of a batch as a server does. Batch/Sql is what a server
--   reads from a value, Batch/Typed, Batch/Sendable, Batch/Index, Request/Read and Request/Carries are
--   about what it reads from a message; Response/Wire is how it writes an answer, Response/Objects
--   and Response/RoundTrip are about decoding that.
-- - Conn: libsql/internal/http/hranaV2/hranaV2.go. World is the state, Send is
--   `sendPipelineRequest` (`send` for the method, `http_request` and Replies' `read_reply` for the
--   function) and `executeMsg`, Chunks and Execute are `executeInChunks` and `executeStmt`, Driver
--   has the methods that database/sql calls, Rows is libsql/internal/http/shared/rows.go with the
--   two rows providers (Rows/Cursor reads a set to its end, Rows/Sets goes from set to set).
--   Version is `init`. Runs, Growth, Indexes, Streams and Faults are about calls of `send`, Sessions and
--   Trips about the driver's methods, Scripts, Ends, Said, Brackets and Drops about
--   `executeInChunks`. Messages and Prepared are about the way from the arguments to a message
--   (Ordinals: `convertToNamed`), Answers and Sums about the way from an answer to a result.
-- - IdPool: the id pool of libsql/internal/ws/websockets.go, with runs of its callers in Runs.
-- - Ws: libsql/internal/ws. Ws itself has the values of websockets.go, sent and received. Dynamic
--   is what encoding/json stores into an interface, with the type assertions; Socket the socket and
--   the messages; Exec is `exec`, Connect `connect`, Response `execResponse`, Driver is driver.go.
--   RoundTrip, Pool, Handshake, Calls, Numbers, Reading and Args are about them.
-- - Query: url.Values of net/url, as far as libsql uses it.
-- - Connector: libsql/sql.go. Options has `config` and its options, Parts `extractJwt` and
--   `extractTls`, Build `connector` and `NewConnector`, Open `Driver.Open`. Agreement, Precedence
--   and InForce are about them.
-- - Redact: libsql/redact.go. Keys is about the secret keys, Tokens about what is handed back.
-- - Keepalive: libsql/keepalive.go, its ticks at given times; Loop has the orders of `Connect`,
--   `Close` and the loop, Closing is about them.
--
-- What is a parameter: the lexer's tokens and `GetText`; time formatting and parsing (`Clock`);
-- encoding/json's parser of a text, its numbers (`Numbers`) and whether it can write a message;
-- url.JoinPath; net/url's URLs (`Urls`, and `Platform` with the registered drivers of
-- database/sql); the build's commit hash and the modules that it is read from. A connection's are
-- gathered in `Env`. The network is the list of replies that will come; of a WebSocket also which
-- writes go through. What Go leaves open of the conversion of a float64 that is no int64 is
-- `outside`. A request that a goroutine of its own sends is noted in `spawned`, and its reply is
-- not read. Maps that Go walks are lists, and the pool's walk takes any key first.
--
-- Fuel: the loops of the splitter run on the number of tokens in the buffer and behind it, since
-- each round consumes one; the loops over chunks run on the same number, since each chunk takes a
-- statement.
--
-- A run-time panic is the error `panicked`, which goes past every caller: that of a JSON null in
-- place of a result, where `UnmarshalJSON` dereferences nil, comes when `getReplicationIndex`
-- decodes the response. An object that repeats a key counts its last value.
--
-- The package websocket closes a connection by itself on an error of any of its methods, so a later
-- `Close` with a status changes nothing. Texts are taken to be valid UTF-8: json.Marshal would put
-- a replacement character in place of other bytes.
--
-- Not modelled: contexts and timeouts, the read limit of a WebSocket, the texts of errors where no
-- code tells them apart, the statement of a keepalive's touch, the shim
-- libsql/internal/http/driver.go (one call), the generated lexer and parser.
pub mod Base
pub mod Tokens
pub mod Tokenizer
pub mod Splitter
pub mod IdPool
pub mod Values
pub mod Params
pub mod Hrana
pub mod Conn
pub mod Query
pub mod Redact
pub mod Ws
pub mod Keepalive
pub mod Connector
