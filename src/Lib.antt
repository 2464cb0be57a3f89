-- ===== src/Lib.antt =====
-- The agents' capability gateway and the orchestrator, modelled and verified.
--
-- The program has three parts that this library models. The plugin
-- hermes-plugins/hermeteam-intent-action-gate compares the tool calls of an agent with what its model
-- proposed. The capability gateway (capability_gateway/)
-- decides which tool an agent may use and whether a call may run; the orchestrator
-- (orchestrator/sdlc_orchestrator/) hands work items from role to role and keeps their runs.
--
-- Prelude and its children: Boolean tests on native numbers, lists, the `str` methods that the
-- program uses (Text), results of code that may raise (Results), JSON values (Json), dicts (Table),
-- and tables of rows with UPDATE and upsert (Rows).
--
-- Gate and its children: the plugin's __init__.py. Scan is `bounded` and `flatten_text`, with Blind
-- about them; Classify is `classify_action`; Calls reads the calls of a response; Proposals keeps those
-- of a session; Hooks are the four hooks, which take the proposals and give them back with the events
-- they emit, and Blocked, Remembered, Known, Matched and Tests are about these.
--
-- Gateway/Models: models.py, its data classes. Gateway/Core: core.py from `category_for_score` to
-- `mark_dominated` and the sort; its children Risk, Dominance and Sorting are about these.
-- Gateway/Resolver: `request_id` and `resolve` of core.py; children Safety and Best.
-- Gateway/Authority and Gateway/Builder: authority.py, with `builder_invocation_context` and the
-- readers of its arguments; child Laws. Gateway/Store: governance.py; Writes and Grants
-- are the operations, Calls is any sequence of them, and Kept, Spending, OneShot and
-- Approval are about those. Gateway/Proxy: mcp_proxy.py, with the reading of a request in Request and
-- `permit` and the answer of service.py to it in Permit; Called, Released, Safety, Flow, OneShot, Rules and
-- Approved are about these, and Tests applies them. What other requests do to the store between the statements
-- of one `permit` is a list of calls of the store (`Moment`).
--
-- Gateway/Service: service.py, with the requests of the administrator; its children Intent and
-- Resolve are `resolve_intent`, up to the ranked tools and from the snapshot on; Stop, Once and
-- Intent/Judged are about these. Gateway/Judge: judge.py, with Bounds about it.
--
-- Orchestrator/Statuses: statuses.py; Orchestrator/Items: provider_base.py and assignment.py;
-- Orchestrator/Response: final_response.py; Orchestrator/Transitions: transitions.py;
-- Orchestrator/Repair: final_response_repair.py, with the prompt in Prompt; Kept and Spans are
-- about it. Orchestrator/Reconciler: reconciler.py, with the records it shares; Scrub, Errors and
-- Parse are its functions on payloads,
-- Outcome is what one run comes to, Settle the writes, the counts and the loop; Scrubbed, Repaired,
-- Sound, Balance, Lifecycle, Ended and Returning are about these. `Runtime` holds what the reconciler uses of Python.
-- Orchestrator/Cycle: run_once and _start_pending of cli.py; Serial is about a whole cycle.
-- Orchestrator/Snapshot: status_snapshot.py; Texts, Counters and Public are about it.
-- Orchestrator/Database: db.py, with its writes in Writes and any sequence of them in Runs. A method
-- of the source has its own name here, without a leading underscore; what changes a database takes it
-- and gives it back. Gateway/Tests and Orchestrator/Tests apply the results to concrete inputs.
--
-- Parameters stand for what is not in the repository: `sha256` (the hexadecimal digest of a text),
-- `dumps` and `loads` (of json), `fnmatch`, `str.lower`, the decimal print of a
-- number, `urlparse`, the token broker (`mint`, `none` where it is unavailable), the headers of a request (their
-- `get`), and the provider that applies a transition, which answers or raises. Floats are an
-- interface with an order and a sum. Each operation of a database is one step, since it holds the
-- lock or the transaction of its caller. All loops are structural, so that no fuel is needed.
-- Times are numbers of seconds. `json.loads` is taken to raise nothing but `JSONDecodeError`: no
-- text has an integer of more than 4300 digits, or nests deeper than the recursion limit.
--
-- Not modelled: the HTTP servers and clients (that of capability_gateway/service.py, the forwarding
-- of mcp_proxy.py, github_app.py, catalogs.py, the request of judge.py, status_server.py;
-- openhands_runner/; the providers and the agent client), the command line but for a cycle, the
-- opening of the database by status_snapshot.py, the migrations of the orchestrator's database, and
-- the reading of files and of the environment.
pub mod Prelude
pub mod Gate
pub mod Gateway
pub mod Orchestrator
