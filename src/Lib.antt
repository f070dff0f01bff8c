-- ===== src/Lib.antt =====
-- A verification library for ieum-agent, the Python service that runs the AI and ACTION nodes of
-- workflows and builds workflows in conversation.
--
-- The parts of the program. The HTTP routes (api/routes) take a node to run, a workflow to check or a
-- line of a conversation. A run goes through the guard of db/idempotency.py, so that a retried
-- request does not run twice, then to the agents (core/agent.py, agents/) or to one tool
-- (core/action_executor.py). An AI node that declares output fields has its declaration and the
-- answer of its model checked by core/output_fields.py. A workflow is checked before it runs by
-- core/validators/static_validator.py, whose rules come from the catalogue that
-- core/template_registry.py loads; the conversation (core/builder) edits a workflow with the same
-- rules. The paths by which both read and write the settings of a node are those of
-- core/template_registry.py.
--
-- Which file models which part:
-- - Base and its children: lists, dicts, integers, equality tests and results that the parts share.
-- - Value, Value/Text, Value/Equal: the values that JSON can hold, the text functions that the code
--   calls, and `==`.
-- - Idempotency: db/idempotency.py. A `Doc` is the document of one key, `Records` the collection,
--   `claim`, `complete` and `release` the three functions of the same names. A Mongo call ends in one
--   of three ways (`Net`), the last being a write whose reply is lost. A response that bson cannot
--   encode makes `complete` raise, which ends the request.
--   Handler: the two routes around it, api/routes/execute.py and api/routes/actions.py; the run
--   itself enters as an `Outcome`. Interleaving: many requests on one collection, one step for each
--   await of the route, the clock, and the expiry of records by Mongo.
-- - OutputFields, OutputFields/Answer: core/output_fields.py without build_output_schema.
-- - Paths: `_get_by_path` and `_set_by_path` of core/template_registry.py. Python puts an int key into
--   a dict that is long enough where a path ends with an index into it: this is an outcome of its own.
-- - Search: the stack search that core/validators/static_validator.py writes out twice, for the
--   nodes reached from the trigger and for the ancestors of a node.
-- - Catalog: `event_entry` and `match_entry` of core/template_registry.py, the catalogue entry of a
--   node. The catalogue is an argument.
-- - Validator: core/validators/static_validator.py. Workflow: `validate_workflow`. Graph:
--   `_graph_errors`, its nodes and edges being `Entries`, with Cron (`_cron_errors`) and Branches
--   (`condition_branches`, `_branch_allowed`, `_branch_edge_errors`). Fields: `field_errors` and
--   `_check`, with Conditions (`_condition_errors`). Refs: `_ref_errors`, with Strings
--   (`_iter_strings`). Problem: the errors, which keep in place of a message what it says about the
--   input. Collect: the loop of `validate_workflow` that gathers the errors, with its two limits, for
--   any type of errors.
-- - Builder: core/builder, the conversation. State: state.py. Clean: `clean` of fields.py. Models:
--   model_pick.py. Turn: the record Turn of tools.py with `_hold`, `_choices` and `_ask_model`.
--   Testing and Finish: `test_node`, cut in two at its wait for the backend, and `finish`, with
--   `how_to_test` of hitl.py. Edit: `connect` and `remove_node`; Edit/Fill:
--   `rename_node` and `set_fields`. Write:
--   `apply_fields` of fields.py, with Destinations (`check_url`, `check_emails`), Keys
--   (`_keyed_branches`) and Said (`said_literally` of state.py). Start: `judge_turn_start` of
--   engine.py. Session: one turn as a list of moves, one for each call of a tool, and its end in
--   `build_turn`.
-- - Actions: the run of one tool without a language model. Run: `_execute` of core/action_executor.py,
--   with the arguments that the tool is called with. Guard: `validate_tools` and the URL scan of
--   core/execution_guard.py. Masking: `mask_response_content` of core/output_validator.py.
-- - Notion: tools/notion_rows.py, the rows of a Notion database. Values: what values mean. Convert:
--   `_convert` and what it calls. Build: `_build`. Http: `_call`, with a log of the requests. Rows:
--   `notion_create_row` and `notion_update_row`. Segments: `_text_segments` of tools/notion.py.
-- - Sheets: tools/google_sheets.py. Columns: `_col`, `_col_index`, `_header_range` and `_resolve`.
--   Rows: `_row` and the search of `_lookup`. The requests are left out.
--
-- Bounds and fuel. The search runs on fuel: the length of the stack and the number of edges, which
-- is enough since a round takes one place off the stack and puts on the edges of a node only when
-- that node is new. `_iter_strings` runs on the number of values in its value, each of which is on the
-- stack once; the search for references in a text, the replacement of tokens and the pieces of a
-- text run on its length, and `_col` on the number of the column, which each round makes smaller.
-- All other loops are structural recursion. Python's integers have no bound, and those of the model
-- have none; the int64 test of output_fields.py is written out with its two limits. A float is exact.
--
-- Parameters stand for code outside the repository: `model_dump` and the model's constructor of
-- pydantic, with the encoding by bson (dump, restore), the replies of Mongo, the catalogue (a JSON file of a submodule),
-- `json.loads` (its result is an argument) and the length of `json.dumps` (size_of), which texts int,
-- float and json.loads read (Parser), str, json.dumps and sha256 (Codec), the clock, the answers of
-- the backend, urlparse, ipaddress and the look-up of host names (Web), how the call of a tool
-- ends, the Notion server as a function of the requests so far (Server), and what str, int, float,
-- json.loads and the digits of re read (Python), the host name that urlsplit finds (Urls), and the
-- first key of the uuids drawn that is not taken (draw).
--
-- Not modelled: logging and tracing, the wording of messages, what a dict holds after a write at a path
-- has raised, the value under an int key (a node that the builder would give one counts as an exception), the calls of the language model and of the services (Google, GitHub, Notion, Slack), and
-- the parts of core/builder that no file above names: the model may call any tool at any time, and the
-- tools that only edit the nodes and edges of the turn stand for any edit.
pub mod Actions
pub mod Base
pub mod Value
pub mod OutputFields
pub mod Paths
pub mod Search
pub mod Sheets
pub mod Validator
pub mod Builder
pub mod Catalog
pub mod Idempotency
pub mod Notion
