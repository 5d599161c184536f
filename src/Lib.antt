-- ===== src/Lib.antt =====
-- Saarthi's backend (backend/app): a chat service that routes each turn of a conversation to an
-- agent. An agent is a language model or a remote interview flow, and a remote interview runs
-- over a WebSocket and a REST service ("Mitra").
--
-- Common: shared names; `Common/Strings` is Python's `str` as a list of code points.
-- Selection: the rows that satisfy a test, and the first of them by a key.
-- Python: the values that `json.loads` builds, with their truth, `str(v)` and `int(v)`. What rests
--   on tables of the runtime (`str.lower`, Unicode digits, the text of a float, `repr` of a text)
--   is the parameter `Runtime`; `Python/Ascii` is one for tests. `Python/Urls` is urlsplit.
-- Exec: methods that change a store and may raise: an exception leaves what was written before it,
--   since the request commits when a mapped error is returned. `Exec/Maintains` are their invariants.
-- Database: the tables of backend/app/models/orm.py and the repositories (backend/app/repositories).
--   A table is a list of rows; a statement reads or writes the rows that satisfy its WHERE clause,
--   and a write that would violate a constraint of `agent_sessions` or `conversation_messages`
--   raises and changes nothing. UUIDs and times are natural numbers. The
--   bounds of the INTEGER columns (`step`, `turn_count`, counts and durations) are not modelled: a
--   number is taken to fit its column. `Log` keeps what a refused message has written before the
--   error, where PostgreSQL aborts the transaction; the logs are the same. `Titles`, `Transcript` and `Log`
--   are about the conversations and their messages over time, `Paging` is about reading them page by
--   page (a client that follows the cursors, on fuel), `Tools` is tool_executions.py, and
--   `Stable` carries an invariant through the statements.
-- Agents: backend/app/domain/agent_spec.py and core.py, with the access rules.
-- Sessions: backend/app/services/session_service.py, over `Database`. A `Command` is one call of a
--   method by some caller, and a list of them any interleaving of committed calls.
-- Registry: backend/app/services/agent_registry.py, the snapshot of the agents, its
--   look-ups, and (`Registry/Scopes`) an agent as a tenant and an organization see it.
-- Router: backend/app/services/router_service.py. The language model (`invoke`), the JSON repair
--   (`loads`), `float(v)` (`float_of`) and the order of doubles (`at_least`) are parameters, and
--   the calls of the model are recorded in the state. `select` is its five gates.
-- Orchestration: backend/app/services/orchestration.py. `World` is what a request reads and writes:
--   its transaction, what is committed, whether a statement has been sent since the last commit
--   (those about the advisory locks aside), the locks by connection, and the calls that leave the
--   process. A `Deployment` is what one request finds outside: the registry, the handlers
--   (`build`), the language model, the REST client, the pool, and what other requests commit while
--   the handler runs (`meanwhile`). `Turn` is handle_turn, with the steps up to the first commit in
--   `Turn/Opening`; `Finalize` is _finalize and finalize_now, split where the remote service is
--   called, so that `Finalize/Steps` can put other calls in between; `Recovery` is what a timeout
--   and resume_turn do. A transaction is rolled back only in `Finalize/Repeated`. A database error
--   aborts the transaction; the query of `resolve_for_scope` is taken to raise none. The history in
--   the prompt of the router is not modelled. `Stable` and `Steps` carry an invariant through a turn, and
--   `Terminal` follows a turn that ends the interview.
-- Handlers: `RemoteFlow` is backend/app/agents/remote_flow_handler.py. What a turn of a channel comes
--   to is a parameter there (`talk`), and `Mitra/Channel` is about it.
-- Capabilities: backend/app/services/capability_service.py with its two queries.
-- Mitra: backend/app/integrations/mitra.
--   `Channel` is ws_channel.py, with its handshake in `Channel/Handshake`; `connect`, the reader
--   thread and the text of the frames sent are not modelled. What a pass of a loop finds of the
--   reader thread and the clock is a `Tick`, and a turn runs over a list of them; a turn that has
--   not ended when the list does is `waiting`. `Pool` is session_manager.py, and its operations take
--   what they find of the channels, the clock and the network.
--   `Frame`, `Coercions`, `Options`, `Envelopes` and `FrameParser` are frame_parser.py; bytes are
--   decoded and JSON is read by the parameters `decode` and `loads`. `_recover_response_text`
--   counts levels down from 7 where the code counts its depth up and stops above 6.
--   `TurnRecovery` is turn_recovery.py. `Rest` is rest_client.py: sending a request is a parameter,
--   the requests sent are the state, and `Finalize/Client` gives the client to the orchestration. A
--   value of a type that a method of the client does not expect raises `type_error`.
--
-- Not modelled: FastAPI's routes and the mapping of errors to status codes, the wiring and the
--   settings, the handler of the language models and its tools (calls of LangChain and of
--   providers), the identity of a caller (claims of a signed token), conversation and agent
--   administration, the synchronisation of the configuration files, migrations, and the frontend.
--   What they call of the parts above is modelled there.
pub mod Common
pub mod Selection
pub mod Python
pub mod Exec
pub mod Database
pub mod Agents
pub mod Sessions
pub mod Registry
pub mod Router
pub mod Mitra
pub mod Orchestration
pub mod Handlers
pub mod Capabilities
