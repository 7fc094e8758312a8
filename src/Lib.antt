-- ===== src/Lib.antt =====
-- Buddy2api: a verification library beside the gateway's Python code.
--
-- The gateway takes OpenAI-style chat requests, admits the model they name (router.py), builds a queue
-- of accounts for it (routing.py, auth_manager.py), paces each account (rate_limiter.py), sends the
-- request with its history cut to the context budget (context_budget.py), and decodes the
-- server-sent events of the answer (proxy.py).
--
-- Files and the code that they model:
--   Prelude: shared names, tests on numbers, lists, dictionaries as functions.
--   Sse: proxy.py, `_SSEEventDecoder` (feed, finish, _take_line, _consume_line, _fail) and
--     `_json_sse_event`. Bytes are numbers. `drain` is the loop of `feed` and `finish`; its fuel is one
--     more than the bytes in the buffer, and Sse/Chunks shows that any larger fuel gives the same.
--   Providers: providers/__init__.py and providers/protocol.py, the enabled channels and the lookup of a
--     provider. The environment variable is an argument.
--   ReasoningControls: reasoning_controls.py. The root file reads single controls and chooses among them,
--     ReasoningControls/Normalized resolves and normalizes a request.
--   Aliases: aliases.py, the cleaning, loading, merging, resolving and saving of aliases. The built-in tables
--     of the channels are an argument, and so is the value of the setting.
--   Catalog: catalog.py, `set_exempt`, `exempt_models` and `is_exempt`. The value of the setting and the list
--     of the enabled channels are arguments; Python's order of texts is Prelude/TextOrder.
--   Streaming: streaming.py, `close_stream`, `ClosingStream` and `ClosingStreamingResponse` on one task. What
--     the iterator, the upstream and the callback do is given, and each call of them is recorded.
--   Responses: responses.py. Responses/Request has `responses_to_chat`, Responses/Reply
--     `chat_response_to_responses`, and Responses/Stream, Reading, Chunks and Ending
--     `_chat_stream_to_responses_stream`: the output items and the events about them, the loop over the
--     upstream's chunks, the terminal status and the whole generator. `Session` is the generator's
--     variables, `sent` what it has yielded. Responses/Client is what a client of the API expects of the
--     events, and no code of the gateway. The functions of Python's standard library that depend on JSON
--     text are the record `Python`.
--   Router: router.py. Router.antt has the readings of a name and a key, Router/Admission `admit_model`,
--     Router/Queue `account_queue`, Router/Walk `_walk_account_queue` and `chat_after_name`. What the
--     router asks of its surroundings (settings, providers, accounts, readings, cool-downs) is the record
--     `Gateway`. What an upstream gives for a dispatch is a function of the trace so far and the hop.
--   Routing: routing.py, the gate on cached quota readings, `order_accounts`, `channel_pool`, and
--     `static_order_index`; `get_active_accounts` of database.py is its WHERE clause.
--   History: router.py, `estimate_prompt_tokens`, `_history_segments`, `_trim_history` and
--     `trim_codex_prompt`. The loop of `trim_segments` has one unit of fuel per segment, which is enough
--     since every round drops one.
--   ContextBudget: context_budget.py. The root file has the budgets and the cuts,
--     ContextBudget/Rejection reads an upstream's error, and ContextBudget/Policy is
--     `dispatch_with_context_policy` with its one retry, for which
--     ContextBudget/Guard reads the first chunks of a stream. A stream is its chunks, read to the end. Python's `int()` and `str.lower()` are arguments.
--   ToolHistory: providers/tool_history.py. The two nested loops are one pass over the messages; the set of
--     consumed indices is not needed, since the inner loop stops at the first index that it leaves.
--   ModelCapacity: model_capacity.py. Which JSON values are of Python's type `int` is an argument.
--   RateLimiter: rate_limiter.py, `settings` and `account_slot`. Coroutines run on one event loop, so
--     the code between two awaits is one step of a system. The dict `_states` maps an account to an
--     address of the heap of `_State` objects. Times are milliseconds.
--   Picker: auth_manager.py, `pinned_for` and `pick_account`. Its two process-wide dicts are the record
--     `Memory`.
--   Cooldown: auth_manager.py, the failure records and back-off. Times are milliseconds.
--
-- Not modelled: input and output, the providers' wire formats, the database and the web pages.
pub mod Prelude
pub mod Sse
pub mod Routing
pub mod Providers
pub mod ReasoningControls
pub mod Aliases
pub mod Catalog
pub mod Streaming
pub mod Responses
pub mod Router
pub mod History
pub mod ContextBudget
pub mod Picker
pub mod ToolHistory
pub mod ModelCapacity
pub mod Cooldown
pub mod RateLimiter
