-- ===== src/Lib.antt =====
-- Verified model of the core of the Aether workspace API (apps/api/src/aether).
--
-- The program answers chat turns over a workspace's documents. Documents are parsed to a tree and
-- chunked (app/ingestion). A turn (app/chat/send_message.py) is admitted against the budgets
-- (app/metering), assembles the thread's memory (app/chat/memory_assembly.py), rewrites the query and
-- searches the chunks (app/retrieval), and sends both to a chain of language-model providers
-- (app/llm/router.py), each behind a circuit breaker (app/llm/circuit_breaker.py). Its events go to a
-- buffer that the responses follow (http/sse.py), its messages and its cost to the database. Members
-- have roles, which the policy gives capabilities (domain/policy.py) and the membership use cases
-- change (app/workspaces). Callers hold refresh tokens (app/auth) or API keys (app/api_keys).
--
-- Which file models what, with paths under apps/api/src/aether:
--   Base: the library's names, Boolean tests, lists and texts (a text is the list of its code points)
--   Domain/Entities: domain/entities.py; Domain/Policy: domain/policy.py
--   Breaker: app/llm/circuit_breaker.py, each method a function of the state and the clock's reading;
--     Breaker/Runs and Breaker/Window hold what sequences of calls do
--   Router/Prompts: the constants of app/llm/router.py; Router/Envelope: its envelopes round untrusted
--     text; Router/Leak: _reply_leaks_system_prompt; Router/Messages: _build_messages and
--     _cost_microcents; Router/Relay: the loop over one provider's stream; Router/Generate: the
--     fallback chain, LlmRouter.generate, whose result is all that the drained generator yields
--   Chunking/Sentences: _split_sentences; Chunking/Flatten: _flatten_to_sentences and _interleave of
--     app/ingestion/chunking.py; Chunking/Pack: the packing loop of chunk_document
--   Memory: _split_by_budget of app/chat/memory_assembly.py; Memory/Assemble: MemoryAssembler.assemble
--     with the rows it reads and writes (adapters/postgres)
--   Members: app/workspaces/manage_members.py over adapters/postgres/membership_repository.py
--   Invitations: app/invitations over adapters/postgres/invitation_repository.py; an acceptance adds a
--     row to the table of Members
--   Sessions: app/auth/refresh_session.py, logout_user.py and revoke_user_sessions.py over
--     adapters/postgres/refresh_token_repository.py
--   ApiKeys: app/auth/api_keys.py and app/api_keys over adapters/postgres/api_key_repository.py
--   PasswordReset: app/password_reset over adapters/postgres/password_reset_token_repository.py and
--     user_repository.py; a reset revokes sessions through Sessions
--   Metering: app/metering over adapters/postgres/usage_ledger.py and budget_repository.py;
--     Metering/Settlement and Metering/Concurrency hold what sequences of calls do
--   Retrieval/Fusion: _reciprocal_rank_fusion, Retrieval/Selection: _mmr_select, _normalize and
--     _cosine_similarity, and Retrieval/Search: HybridSearch.search of
--     app/retrieval/hybrid_search.py, with query_rewrite.py and refusal_gate.py; Retrieval/Floats:
--     the abstract floats; Retrieval/Ids, Rounds, Selected and Answers: the proofs
--   Streaming: domain/streaming.py; Streaming/Grammar: the grammar of its comment, as an automaton
--   Turn/Store: message_store.py, message_repository.py and citation_repository.py of
--     adapters/postgres; Turn/Ports, Replay, Generation and Execute: app/chat/send_message.py, whose
--     execute is Turn.Execute.execute; the other files under Turn hold the proofs
--   Turn/Routed: LlmRouter.generate as the turn's generator
--   Sse: follow_buffer of http/sse.py over adapters/redis/stream_buffer.py
--   Idempotency: http/idempotency.py over adapters/redis/idempotency.py, whose entries Redis drops a
--     day after they were stored; Idempotency/Replays: the proofs
--   Tests: concrete runs of the theorems
--
-- The router uses the breakers through Breaker's functions, its messages use the envelopes, and the
-- chain runs Relay's loop once for each provider that it tries. A turn calls Memory's, Retrieval's and
-- Metering's functions; its generator is a port, which Turn/Routed fills with the router; what it emits
-- is read through Sse. Loops are structural recursion on the list that the source iterates
-- over; `while` loops pop from a list, or count the rounds that are left: the selection of k chunks
-- runs at most k, and follow_buffer gets the number of its polls, of which it needs no more than one
-- behind the poll that finds the buffer complete.
--
-- Parameters: the tokenizer's count of a text's tokens, the providers' streams, the compactor of the
-- memory service, the query rewriter, the search backend and the embedder, the hash and token
-- functions, the clock's readings, the cancellation's answers, and the new identifiers and random
-- texts. Numbers are unbounded, as in Python; times are microseconds, and a difference of times is
-- compared as a sum, except where the source takes its maximum with 1. The floats of retrieval and of
-- the heartbeat are an abstract type with their operations, of which nothing is assumed; the overlap
-- ratio 0.125 is an eighth. An event's payload and its frame stand for their JSON text and bytes.
--
-- Not modelled: interleaved requests and transactions (so no semaphores and no races), writes that
-- fail in the middle of a turn, the early closing of a generator, the expiry of the stream's buffer,
-- metrics and logs, the HTTP routes, parsers, storage and provider adapters, login,
-- workspace creation, deletion and export, ingestion jobs and workers.
pub mod Base
pub mod Domain
pub mod Breaker
pub mod Router
pub mod Chunking
pub mod Memory
pub mod Members
pub mod Invitations
pub mod Sessions
pub mod PasswordReset
pub mod ApiKeys
pub mod Metering
pub mod Retrieval
pub mod Streaming
pub mod Turn
pub mod Sse
pub mod Idempotency
pub mod Tests
