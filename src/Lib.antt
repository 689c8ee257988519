-- ===== src/Lib.antt =====
-- The study helper turns an uploaded PDF into notes and questions. `POST /upload` parses the PDF and
-- keeps a session in the session store, and for a user who is logged in also a row in PostgreSQL;
-- `POST /generate` hands it to a background task, which asks a language model three times,
-- checks the answers and publishes the content in the session and in the question bank.
--
-- Parts, and the files that model them:
-- - Text, Json, Runtime, Outcome: what the source uses of Python. A text is the list of its code
--   points, a JSON value is `Json.Value`, an exception is a value of `Outcome.Failure`. `Runtime` is
--   a parameter: the Unicode tables, json.loads and json.dumps, the draws of uuid4 and the order in
--   which a set is iterated. `Runtime.Number` has int() and str().
-- - Schema, Coerce: app/models/schemas.py, with `_coerce_level` and `_coerce_question_type`.
-- - Validator, Validator.Notes, Validator.Mcq, Validator.Fill: app/services/response_validator.py. A
--   loop with `continue` is a function on the variables of the loop (`visit`, `visit_all`); an
--   exception ends it. The ids that `_ensure_id` writes into the raw dicts come back with the notes.
-- - JsonUtils: app/services/json_utils.py, over json.loads.
-- - Breaker, Client: app/services/anthropic_client.py, openai_client.py and timely_client.py. One
--   call is a function of the breaker and of what the service answers, and when; the retry loop is
--   `Client.Retry`, for any call. A call of a service is a function from the number of the attempt to
--   the answer, so that any sequence of answers is covered.
-- - Prompts: app/services/prompt_builder.py, with all texts.
-- - Sessions, QuestionBank: app/services/session_store.py (its in-process dict) and
--   question_bank.py. A table is a list of its rows, and one statement is one atomic step; a database
--   may be missing or not reachable.
-- - Pdf: app/services/pdf_parser.py. `Pdf.Clean` has `_clean_text` with its two patterns,
--   `Pdf.Sections` the loops of `_extract_sections` on the variables that they keep, `Pdf.Chunks` has
--   `_chunk_sections` and `Pdf.Parse` has `parse_pdf`. pdfplumber is a parameter.
-- - UserStore: app/services/user_store.py. `UserStore.Query` is a monad on the database: what is
--   written stays written where a method ends in an exception. `UserStore.Subjects`,
--   `UserStore.Create`, `UserStore.Listing` and `UserStore.Reviews` have the methods, with the keys of
--   the tables in migrations/. A record `Server` has the casts, the ids and the clock of PostgreSQL.
--   `UserStore.Query.Triples` and `UserStore.Query.Loops` are the rules for proofs about methods;
--   `UserStore.Owners` is about who owns what, for the interface `UserStore.Owners.Kept.Kept` of
--   things that every statement keeps, and `UserStore.Again` about bulk uploads that are repeated.
-- - UserApi: app/routers/user.py, the bodies with their bounds and the endpoints.
-- - Upload: app/routers/upload.py. It calls the parser and the user store, and writes the session that
--   the background task reads.
-- - Generate: app/routers/generate.py. `Generate.Job` is the state that the task acts on (stores,
--   breakers, tokens) with a monad whose steps go on, end the task in order, or let an exception
--   out. `Generate.Finish` has `_sync_user_session_status`, `_fail` and `_finalize_ready`,
--   `Generate.Task` has `_run_generation`, and `Generate.Endpoints` the endpoints, with
--   app/core/validators.py.
-- - Auth: app/core/auth.py, with the cache of key sets. The user that it gives is the `user` of the
--   endpoints.
-- - App: the middlewares and the health check of app/main.py, the handlers of core/exceptions.py.
-- - Examples: the theorems at concrete inputs.
--
-- Bounds: numbers are unbounded, as in Python. A time is a natural number of nanoseconds. The loops
-- recurse over the list that they go over; the retry loop over the rounds that are left. Only
-- `Runtime.Number.digits` has fuel, one more than the number, and `Runtime.Number.Decimal` reads the
-- digits of it back; `Pdf.Chunks.slices` has as many rounds as there are words, and takes at least
-- one in each.
--
-- Not modelled: the Redis backend of the session store, the start and the wiring of libraries in
-- app/main.py, and logging. Two tasks on the same session are not interleaved, and a method of the
-- user store is not interleaved with another. What an SDK or a database does is a parameter: its
-- answers are any.
pub mod Prelude
pub mod Text
pub mod Outcome
pub mod Json
pub mod Runtime
pub mod Breaker
pub mod Config
pub mod Schema
pub mod Coerce
pub mod Validator
pub mod JsonUtils
pub mod UserStore
pub mod QuestionBank
pub mod Prompts
pub mod Sessions
pub mod Pdf
pub mod UserApi
pub mod Upload
pub mod App
pub mod Auth
pub mod Client
pub mod Generate
pub mod Examples
