-- ===== src/Lib.antt =====
-- Narration enrichment: the verification library of the backend.
--
-- The program (narration-enrichment/src/narration_enrichment/) is a service that enriches bank
-- transactions with a language model, answers from ingested policy documents, and works transaction
-- disputes with an agent. Its parts that are modelled here, and how they meet:
--
--   CircuitBreaker  circuit_breaker.py: `allow` before a provider call, `record_success` and
--                   `record_failure` after it.
--   RateLimiter     rate_limiter.py: two sliding windows that admit a call or refuse it.
--   Errors          the exceptions that handlers tell apart, with `_is_transient` of worker.py and the
--                   two predicates of service.py.
--   Enrichment      service.py: `enrich_narration`, the breaker around a model and its fallback, routed
--                   by model_router.py.
--   Chunker         chunker.py: a text cut into overlapping chunks.
--   PolicyStore     db.py, the tables policy_docs and policy_chunks: upsert, delete, reads.
--   PolicyIngest    policy_ingest.py: `ingest` strips, compares the digest, chunks, embeds each chunk
--                   and upserts in one commit.
--   IngestJobs      db.py, the table ingest_jobs: creation, the compare-and-set claim, the outcome
--                   write, the queries of the sweep.
--   JobQueue        job_queue.py: `InMemoryJobQueue`, at-least-once delivery with a visibility timeout.
--   Worker          worker.py: `process_one_message` claims a job, calls `ingest`, writes the outcome and
--                   acknowledges; `run_once` drains a batch; `run_sweep` repairs what was lost.
--   IngestRoute     main.py: `policies_ingest_async`, the intake of jobs with its fast paths and valve.
--   LoadShed        load_shed.py: `InFlightLimiter`, the cap on requests in flight.
--   EnrichRoute     main.py: `enrich` (replay test, slot, work, answer stored, slot returned) and
--                   `enrich_batch`, with the idempotency table of db.py.
--   Auth            auth.py: `require_api_key`, over the table of key digests.
--   Tools           tools.py: `execute_tool`, the one door to a tool.
--   Disputes        db.py, the tables disputes and agent_steps, with the named transitions.
--   AgentTurns      dispute_agent.py: what the loop does on one reply of the model.
--   DisputeAgent    dispute_agent.py: `run_dispute_agent`, the loop itself.
--   DisputeRoutes   main.py: `disputes_run` and the human gate, `disputes_approve` and
--                   `disputes_reject`.
--   DisputeReads    main.py: `disputes_create`, `disputes_list` and `disputes_get`.
--   Enrichments     db.py, the table enrichment_records.
--   Floats          Python's floats, as a parameter.
--   Bm25            bm25.py: tokens, BM25 scores and the reciprocal-rank fusion of rankings.
--   Rag             rag.py: cosine and hybrid retrieval of past enrichments and of policy chunks.
--   RagPrompt       rag.py: the blocks of the prompt of an enrichment.
--   EnrichWork      main.py: `_enrich_and_persist`, the work between the guards of `enrich`: retrieval,
--                   rate limit, the call, the earned citations, the saved row.
--   ToolFunctions   tools.py: the functions over enrichment records and the registry of the tools.
--   ChatSessions    db.py, the tables chat_sessions and chat_turns.
--   ChatPrompt      chat_service.py: the texts of the prompt.
--   Chat            chat_service.py: the tool loop of `answer_message`, each call behind the breaker, each
--                   tool attempt audited in the table tool_invocations.
--   ChatService     chat_service.py: `answer_message` round that loop.
--   ChatEvidence    the retrievals of `answer_message` put together with rag.py.
--   ChatRoutes      main.py: the four routes of chat.
--   Json            the values of JSON.
--   PolicyList      db.py: `list_policy_docs`.
--   McpServer       mcp_server.py: the methods of the protocol.
--   McpDispatch     mcp_server.py: `handle_message`; main.py: `mcp_endpoint`.
--   EvalRuns        db.py, the tables eval_runs and eval_results, with `record_eval_run`.
--   DisputeJudge    dispute_judge.py: the verdict with its objective field checked, and the gate.
--   DisputeEval     narration-enrichment/eval/run_eval_disputes.py: the golden cases through the agent,
--                   the judge and the gate.
--   PolicyRoutes    main.py: `policies_ingest`, `policies_list` and `policies_delete`, with the calls of
--                   s3_store.py.
--   Telemetry       telemetry.py: the row of each provider call; service.py: the retries of `_call_llm`.
--   NarrationEval   narration-enrichment/eval/run_eval.py: enrichments compared with golden cases, and the
--                   summary of a run.
--   Prelude         names of the libraries passed on, Boolean tests, lists over native numbers, Python's
--                   ints and texts.
--
-- A method of a class is a function on a record of its fields; a query or a write of the database is a
-- function on lists of rows in the order of insertion, one function per committed statement; an
-- exception is a value of `Raised`. A method under a lock is one step. Times are natural numbers, in
-- milliseconds where code compares them with seconds, and each reading of a clock is an argument. Texts
-- that the code measures are lists of code points; ids and digests are native strings.
--
-- Bounds and fuel: the chunking loop runs on the length of the stripped text, which is enough as each
-- pass moves on by at least one character. The agent's loop has the 6 passes of the source, the tool
-- loop of chat its 3 passes and the forced call, a call of the model for an enrichment its 3 attempts.
-- Numbers are natural numbers of any size, as Python's are.
--
-- Parameters: the digest `sha256`, the embedding call `embed`, the language model (`ask`, and `wire` for
-- its single calls), the judge of an evaluation, the tool registry, the renderings of json.dumps, the
-- lower-casing of texts, the answers of the object store, the draws of uuid4 and of the clock (`draw`),
-- whether the database enforces foreign keys (`foreign_keys`), and whether the session is usable after
-- an exception (`session_usable`).
--
-- Not modelled: the other HTTP routes of main.py; SQS, settings, correlation ids and logging, which call
-- outside services; the prompts of service.py and of the agent, the parsing of JSON and the arithmetic
-- of floats; what other processes do between two statements of one run of the agent, of one message of
-- a chat or of one sweep.
mod Prelude
pub mod CircuitBreaker
pub mod RateLimiter
pub mod Errors
pub mod Enrichments
pub mod ChatPrompt
pub mod Chat
pub mod ChatService
pub mod ChatRoutes
pub mod Json
pub mod PolicyList
pub mod McpServer
pub mod McpDispatch
pub mod Floats
pub mod Bm25
pub mod Rag
pub mod RagPrompt
pub mod EnrichWork
pub mod ToolFunctions
pub mod ChatSessions
pub mod Chunker
pub mod PolicyStore
pub mod PolicyIngest
pub mod IngestJobs
pub mod JobQueue
pub mod Worker
pub mod Disputes
pub mod Tools
pub mod AgentTurns
pub mod DisputeAgent
pub mod LoadShed
pub mod EnrichRoute
pub mod DisputeRoutes
pub mod Enrichment
pub mod Auth
pub mod IngestRoute
pub mod EvalRuns
pub mod DisputeJudge
pub mod DisputeEval
pub mod PolicyRoutes
pub mod ChatEvidence
pub mod Telemetry
pub mod DisputeReads
pub mod NarrationEval
