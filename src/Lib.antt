-- ===== src/Lib.antt =====
-- A verification library for Micro Manus services, the backend of a research agent: users sign in,
-- buy or redeem credits, and send messages; each message costs one credit and starts a run, which a
-- worker carries out with a language model and tools; a run that fails gives the credit back.
--
-- The parts and their files (paths of the program are from the root of the repository):
--
-- Base: text as UTF-16 code units, lists, signed integers, trimming and case.
-- Db: the tables of db/migrations as lists (Db/Rows), errors, results and transactions of
--   src/db/database.service.ts (Db/Sql), the statements that several services run, each with the
--   constraints that can reject it (Db/Statements).
-- Ledger: what the other modules keep. Ledger/Defs defines the sum of a ledger, the charges of a
--   run and the three invariants; Balance, Charges and Exclusive are their lemmas, Sound joins them
--   into `IsSound`, and Keeps is the same for handlers, with rules for `search`.
-- Pool: src/db/database.service.ts one level down, where a transaction is the commands of a client
--   of the pool and each can fail; Atomic is that a transaction is all or nothing then.
-- Config: src/config.ts, and what src/redis/redis.util.ts, src/main.ts, src/keys/crypto.ts and
--   src/health.controller.ts make of settings, with Booted.
-- World: what handlers and workers act on: the database, the cancel flags and channels of Redis,
--   and the queues.
-- Billing: src/billing; Payment is the page to pay on; Webhook, Paid and Coupon are the proofs.
--   Admin: src/admin, with Grants; Admin/Stats is its two queries, with Reconciled. Users:
--   src/users.
-- Auth: src/auth/auth.service.ts. Login is `loginWithIdToken` and `mergeUsers`, with Merge,
--   Accounts and SignIn; Sessions is the refresh sessions, with Rotation and Tokens. Auth/Cookies:
--   src/auth/auth.controller.ts and src/auth/jwt.guard.ts, with Lifecycle, a session from its start
--   to its end. Auth/Firebase: src/auth/firebase.service.ts, with Verified, the sign-in over it.
-- Models: src/models (Table is the registry, Picker the list of a user's models; Offers, Runnable
--   and Resolution are the proofs). Llm: src/llm/types.ts and src/llm/llm.service.ts (Types,
--   Service); Llm/OpenaiCompat: the request of src/llm/openai-compat.provider.ts, with Request;
--   Llm/Chunks: its stream, with Fragments, Table and Turn on the pieces of streamed calls;
--   Llm/Anthropic: src/llm/anthropic.provider.ts, with Groups and Pairs. Usage:
--   src/usage/usage.service.ts (Cost), with Recorded; Usage/Groups and Usage/Stats:
--   src/usage/usage.controller.ts, with Sums.
-- Keys: src/keys/keys.service.ts (Probe, Store) and src/keys/crypto.ts (Crypto); Accepted,
--   RoundTrip and Sealed are the proofs; Unique, Moved and Merged are about two keys of one user
--   and provider.
-- Uploads: src/uploads (Save; Context, the block for the model), with Attached. Tools/FetchUrl:
--   src/tools/fetch-url.tool.ts, with Tools/Guarded. Tools/Registry: src/tools/tool.registry.ts and
--   the tools web_search, create_artifact and read_artifact; Sound is what they do to the database,
--   Documents how a file that is made is read again. Artifacts: src/artifacts/artifact.service.ts;
--   Serve is src/artifacts/artifacts.controller.ts, with Named.
-- Memory: src/memory/summarize.processor.ts, with Blocks and Archive; Retrieval is
--   src/memory/memory.service.ts. Errors: src/common/all-exceptions.filter.ts.
-- Chat: src/agent/chat.controller.ts. Transaction, Handlers and Views are the code; Charge, Access,
--   Sending and Delete the proofs.
-- RunEvents: src/agent/run-events.ts, with Replay.
-- Agent: src/agent/agent.processor.ts. Resume, Finalize, Loop and Process are the code; Ending,
--   Invariant, Outcome, Leaves, Settles, LastAttempt, Answer and Rounds the proofs;
--   Watched joins the worker and a browser, Requests the worker and the adapter for Anthropic.
--   Agent/Sse: src/agent/sse.controller.ts, with Once, Open, Ends and Reload.
-- System: the transactions and statements that write to the tables as one transition system; Frame is
--   about those that leave users, ledger and runs alone.
-- Tests: the definitions and theorems at concrete inputs.
--
-- How the code is modelled. A statement or transaction is a function from a database to a result
-- and a database; it is atomic, and an error rolls a transaction back. Transactions take effect one
-- after the other: the interleaving of their statements, which Postgres allows at READ COMMITTED,
-- is not modelled. A handler or worker is a function on `World`, and where it waits for others
-- these act through a parameter: between the checks of `sendMessage`, and before each turn of the
-- worker. Fresh keys, random tokens and times are arguments. Costs are whole numbers of 10⁻⁸
-- dollars, exact where the source computes in floating point. The loop of the worker is recursion
-- on the turns that are left of its twelve, so it needs no other bound. The tools of a turn are
-- announced in order and then finish one by one in an order that is a parameter. What a stream of
-- live events waits for arrives through a parameter: at each wait of the handler, some events of
-- the run, and perhaps the end of the connection. `JSON.parse` and `JSON.stringify`, Stripe,
-- Firebase's SDK, the driver of the database, URLs, the signing of tokens, DNS, HTML to text,
-- decryption, hashing, the reading of a uuid, embeddings and the order by their distance, the
-- search service, files, the requests to providers and their streams are parameters.
--
-- Not modelled: the rendering of PDF (src/artifacts/pdf.ts), the list of a user's threads, the
-- constant prompts, and the wiring of the framework. Failures of Redis and of the queue while a
-- worker runs, the range of the columns of token counts, letters of an email without an ASCII form
-- when it is compared with the administrator's, and the path of a cookie in the browser are left
-- out too. A client of the pool whose ROLLBACK fails is taken to have lost its connection, which
-- ends its transaction.
pub mod Base
pub mod Llm
pub mod RunEvents
pub mod Db
pub mod Ledger
pub mod Billing
pub mod Models
pub mod World
pub mod Pool
pub mod Config
pub mod Chat
pub mod Usage
pub mod Agent
pub mod Admin
pub mod Auth
pub mod Keys
pub mod Tools
pub mod Uploads
pub mod Memory
pub mod Errors
pub mod Users
pub mod Artifacts
pub mod System
pub mod Tests
