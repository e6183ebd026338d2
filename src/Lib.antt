-- ===== src/Lib.antt =====
-- procframe: typed procedures (unary, client stream, server stream, bidirectional) that one handler
-- serves over the command line, Connect and a WebSocket protocol.
--
-- How the parts work together. A transport reads a request, wraps it with its call's `CallSpec` and
-- calls one of the `Invoke` functions of interceptor.go, which runs the typed handler inside the
-- interceptor chain; an error that comes back is classified once, by errors.go and the mapper that
-- the application configures, and each transport shows it in its own form.
--
-- - Errors: errors.go. A Go `error` is a data type with one constructor for each way in which the
--   program makes one (`sentinel`, `plain`, `wrapping`, `joined`, `status_error`).
-- - Calls: handlers and middleware are code that the program does not contain. What such code does
--   with an interface of the program is a tree of its calls, each depending on the replies so far.
-- - Interceptor: interceptor.go, request.go, response.go, meta.go, stream.go and handler.go.
--   Interceptor/Message has the data and `castRequest`, `castResponse`; Interceptor/Conns the `Conn`
--   types and the streams over a `Conn`; Interceptor/Chain `chainInterceptors`; Interceptor/Invoke
--   `InvokeUnary`, `InvokeClientStream`, `InvokeServerStream` and `InvokeBidi`.
-- - Connect: Connect/Errors is transport/connect/errors.go, `toConnectError` and `mapCode`;
--   Connect/Handlers is connect.go, what the four constructors give to connect-go.
-- - Cli: transport/cli/runner.go, node.go and exitcode.go. Cli/GlobalFlags is `preParseGlobalFlags`,
--   Cli/MapError `mapError`, Cli/ExitCode `ExitCode`, Cli/Node the tree, and Cli/Runner `traverse`,
--   `dispatch` and `Run`. Cli/Flags is flag.go, the flag values.
-- - Ws: transport/ws. Ws/Frame is frame.go and errors.go; Ws/Session the receive channel and the
--   codecs; Ws/Run what `HandleUnary` and its siblings run for a session; Ws/Server the state of one
--   connection with `readLoop`, `handleOpen`, `handleMessage`, `handleClose`, `handleCancel` and
--   `closeAllSessions`; Ws/Server/Steps the interleavings of the reader and the session goroutines.
--   Ws/Client is client_stream.go; Ws/Client/Call is call.go and the sends, as trees of calls of a
--   `Conn`; Ws/Client/Conn is client.go, the session table and the loops of a `Conn`. Ws/Wire puts a
--   client and a server on the two ends of one connection: the reader of the server handles the frames
--   of a call, then the goroutine of the session runs, and the client reads what both have written.
-- - Config: Config/Bootstrap is config/bootstrap.go, `ParseBootstrapArgs`; Config/Load is
--   config/load.go, `Load` and what it calls, over the closures that a generated spec holds;
--   Config/Parse is config/parse.go. Config/Field is env.go, required.go and redact.go;
--   Config/Json the JSON libraries, as parameters, and the names of fields in JSON of file.go;
--   Config/Secrets the redaction of file.go, and Config/File its `mergeJSONFile`.
-- - Codegen: Codegen/Naming is internal/codegen/naming.go, `enumCLIValues` and `camelToUpperSnake`;
--   Codegen/Tree is tree.go, `buildTree`; Codegen/Validate is validate.go, `validateDuplicatePaths`
--   and `validateConfigInfo`; Codegen/ConfigModel is config_model.go and params.go.
--   Codegen/Descriptors is the input that protogen gives; Codegen/Options is options.go, and
--   Codegen/Inputs the loops of gen.go and the plugin-wide checks of validate.go over it.
--   Codegen/ConfigCode, ConfigRun and ConfigSpec are config.go: what the printed functions do when
--   they run, over the library of Config. Codegen/Services is handler.go, connect.go,
--   connect_client.go, ws.go and ws_client.go: the printed signatures, registrations and calls, as
--   data.
-- - Strconv: what the program uses of Go's package strconv.
-- - Boundary: what the three transports make of the same error.
-- - Prelude: library names, lists, strings and association lists; Prelude/Replace
--   is Go's `strings.ReplaceAll`. Examples: runs on concrete inputs.
--
-- Conventions. A Go pointer or interface is an `Option`, a pair of a value and an error a `Result`
-- or a pair, a map an association list, a channel its buffer. Where a lock is released between two
-- accesses, the two are different steps. A loop over a slice is recursion on what is left of it, with
-- a count of the elements that `i += consumed` steps over, so that no loop needs fuel.
--
-- Bounds. A session's channel holds 64 messages (`recvChBufSize`); a message beyond them is dropped at
-- the server and waits in the read loop of the client, as in the source. The id counter of a client
-- wraps around at 2^64. `maxInflight` is a natural number; a negative one makes the source panic.
--
-- Not modelled: contexts (deadlines and values), the JSON and protobuf codecs (the parameter `Codec`
-- of a session), the websocket library, the writer goroutine beyond the order in which frames are
-- handed to it, the escapes of `%q`, the choice that `send` of a client makes between its
-- channel and the end of the connection (its reply is any error or none), connect-go,
-- the help and the stream adapters of the command line, the parsing of JSON and the protojson
-- decoder (parameters of Config/File), the descriptors' parser, the `Format` method that a generated
-- configuration has, the spelling of printed Go (layout, imports and identifiers other than the
-- functions that are called), and internal/codegen/cli.go, which prints the command-line code.
pub mod Prelude
pub mod Errors
pub mod Strconv
pub mod Calls
pub mod Interceptor
pub mod Connect
pub mod Cli
pub mod Ws
pub mod Config
pub mod Codegen
pub mod Boundary
pub mod Examples
