-- ===== src/Generate.antt =====
-- app/routers/generate.py: the background task `_run_generation`, from a session to its content.
-- One task runs here from its first step to its last; requests that are served in between act on
-- other sessions, or come before or after.
pub mod Job
pub mod Finish
pub mod Ending
pub mod Stages
pub mod Task
pub mod Endpoints
