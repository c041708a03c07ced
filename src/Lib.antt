-- ===== src/Lib.antt =====
-- Model of carqna-agent: the HTTP service and the command line that let users chat with an agent and
-- manage their sessions, the agent graph, and the document store behind it.
--
-- Parts and files (paths from the repository's root):
--   PyText, PyText/Int    Python's str as a list of code points, its methods, and int(s)
--   PyText/Utf8           str.encode("utf-8") and bytes.decode("utf-8"), strict, and base64
--   PyText/Url, Decimal   urllib.parse.urlsplit of Python 3.13, and str of a number
--   PyDict                Python's dict by text keys, in the order of its keys
--   Errors                the exceptions that the program tells apart, and results that may raise
--   Os                    the environment and the file system: getenv, join, expanduser
--   Database              infrastructure/docker/postgres/initdb.d/*.sh and the SQL statements
--   Database/Pool         psycopg_pool's connection(), an interface with its transactional laws
--   Sessions              src/agent/sessions.py: list_sessions, create_session, touch_session
--   Tracking              src/agent/user_tracking.py: track_user, _fetch_userinfo
--   Auth/Bearer, Verify   src/agent/auth.py: get_bearer_token, authenticate_request
--   Auth/Context          src/agent/auth_context.py: the context variable and its readers
--   Auth/Middleware       src/agent/auth_middleware.py: AuthMiddleware.__call__
--   Server/Routes         src/agent/copilotkit_server.py: the route handlers behind the middleware
--   Server/Concurrent     src/agent/copilotkit_server.py, user_tracking.py: requests that interleave
--   Server/Gateway        src/agent/auth_middleware.py: requests that arrive while others are under way
--   Server/Stream         src/agent/copilotkit_server.py: agent.clone() and event_generator, many at once
--   Server/Lifespan       src/agent/copilotkit_server.py: lifespan, what it opens, serves and closes
--   Errors/Action         code that works on a state and may raise, and `finally`
--   Graph/Settings        src/agent/graph.py: _load_prompt_from_file, _load_mcp_config, _get_conn_string
--   Graph/Backend         src/agent/graph.py: _create_insurance_backend
--   Graph/Tools           src/agent/graph.py: _initialize_mcp_tools and the module's tool cache
--   Graph/Create          src/agent/graph.py: create_graph
--   Graph/Instance        src/agent/graph.py: get_graph, and the graph made when it is imported
--   Cli                   src/agent/carqna_cli.py: the SQLite table of the command line's sessions
--   Cli/Concurrent        src/agent/carqna_cli.py: several processes on one SQLite file
--   Cli/Loop, Cli/Main    src/agent/carqna_cli.py: the prompt loop, _get_cli_sqlite_path and main
--   S3/Keys               src/agent/s3_backend.py: paths, keys and listing prefixes
--   S3/Client             what s3_backend.py calls of boto3 and deepagents, as interfaces
--   S3/Files              _not_found, read, write and edit of src/agent/s3_backend.py
--   S3/Search             ls, grep, glob and the helpers that read the bucket for them
--
-- A request enters at Server.Routes.serve, which is the middleware around the handlers. The
-- handlers are actions on the tables: they read the identity from the context, track the user and
-- then list, create or touch sessions. Before that, Server.Lifespan.lifespan has opened the pool
-- and the saver, made the graph with Graph.Create.create_graph and mounted the routes; its calls
-- are kept as a list of events, which Server/Lifespan/Stages reads as a life cycle.
-- Server/Concurrent runs the same statements for any number of requests, in any order of their
-- turns: a request gives way at each `await` that talks to the database or the identity provider,
-- so track_user is three turns there and one block in Server/Routes. Server/Gateway puts
-- the middleware in front of these turns. Server/Stream goes on where a chat is answered with a
-- stream: its run works on a clone of the agent and on the checkpoints of its thread, which the
-- clones share. A table is a bag of rows; an identity sequence moves on even
-- where a statement is rolled back. The time of a request is an argument. The command line enters
-- at Cli.Main.main, which opens the session, makes the graph with Graph.Create.create_graph in the
-- state that the import of graph.py has left, and runs the prompt loop over a list of inputs. There
-- one process has the SQLite file; Cli/Concurrent runs the statements of any number of processes on
-- it, in any order, up to the id that main goes on with.
--
-- Parameters, with what is assumed of them where a theorem needs it: the connection pool (a block
-- that ends without an exception is committed, any other leaves the rows; IsUp says that it also
-- raises nothing of its own), PyJWT, httpx, boto3's S3 client (IsStore is S3's read-after-write
-- consistency), the helpers of deepagents.backends.utils (IsGlobber: the glob helper answers
-- paths of the dict it is given, joined by newlines, or a note that there are none), json.load, the MCP client,
-- create_deep_agent, and the agent that answers a prompt or streams events (a run reads and writes
-- the checkpoints of its own thread and no others). Header values are Latin-1 texts. Of
-- Python's int the limit of 4300 digits and Unicode's decimal digits are written out; urlsplit's
-- checks of a bracketed or non-ASCII host are a parameter.
--
-- Every loop is structural recursion on the data that it runs over, but for two that run on fuel. The
-- prompt loop has one unit for each round: more units than there are inputs up to the one that quits
-- are enough, which is proved, and without such an input no fuel is. The digits of n are computed
-- with n + 1 units, one for each digit. A schedule of requests, streams or processes is a list of
-- turns.
--
-- Not modelled: tracing, what the agent does to make its events, the cancellation of requests and
-- of the agent's calls, session names with a lone surrogate, a U+0000 in the user id but for the INSERT of a session, FastAPI's routing and parsing and its answer to an HTTPException of a
-- handler, failures of SQLite other than the UNIQUE column's and the waiting for its lock, the
-- httpx factory, logging and tracebacks.
mod Common
pub mod PyText
pub mod PyDict
pub mod S3
pub mod Errors
pub mod Database
pub mod Sessions
pub mod Tracking
pub mod Auth
pub mod Cli
pub mod Os
pub mod Graph
pub mod Server
