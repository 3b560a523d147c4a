-- ===== src/Lib.antt =====
-- Verification of the core of code-analyzer, an evidence-first runner of C/C++ analyzers.
--
-- Parts, and the files that model them:
-- One file, Units.antt (code_analyzer/llm/units.py): how one file is cut into segments and chunks. `claim` and
--   `claim_rest` are the loop of `_segments` and what follows it, `absorb` and `finish_absorb`
--   those of `_absorb_blank`, `chunk_loop` that of `_chunks`. A text is a list of code points, as
--   the Latin-1 decoding makes a character index a byte offset.
-- Scan units over all files, Plan.antt (code_analyzer/llm/units.py): `plan_units` and its check `coverage_gaps`, with `line_of`
--   and `line_starts` of code_analyzer/llm/index.py. A unit has the fields of its identity, its
--   extent and its symbol. `read` stands for the file system.
-- Run control, Control.antt (code_analyzer/control.py): `RunControl` as a record with one function per method, the
--   gate of the worker pool in Control.Semaphore, the producers' `checkpoint` in
--   Control.Checkpoint, the decisions in Control.Decisions. A blocking method is a look at the
--   record for each time that the waiting thread wakes; Control.Trace has the runs of calls.
--
-- Loops: `chunk_loop` has the span's length as fuel, of which each round uses one and moves the
-- cursor on by one at least. Every other loop is over a list.
-- Status, Status.antt (code_analyzer/status.py): the ladder of status words and the exit codes.
-- Scanner responses, Schema.antt (code_analyzer/harness/schema.py): `validate` is `_validate` and `collect` the loop
--   of `parse_findings`; Schema.Extract has `_payload` and what it calls. `Outcome` tells a result from an
--   exception that leaves the function. json.loads, the two fence patterns and the Unicode
--   database are parameters.
-- The ledger file, Ledger.antt (code_analyzer/evidence/workspace.py): `append_many` by several writers, each with the seq
--   and the size that it remembers, `read`, and `reconcile`. `killed` is a write that a kill cuts off.
-- Background jobs, Jobs.antt (code_analyzer/jobs/manager.py): `JobManager`, with one function per method.
-- Approval cards, Approvals.antt (code_analyzer/kernel/approvals.py): `show`, `pending` and `decide` over the records of the ledger.
-- Risk tiers, Risk.antt (code_analyzer/llm/risk.py): `classify` and `parse_overrides`; the regular expressions and
--   the glob matching are parameters.
-- Verdicts, Verdict.antt (code_analyzer/harness/verdict.py): `parse_verdict`.
-- Conversational turn, Turn.antt (code_analyzer/kernel/loop.py): `Kernel.turn`; `rounds` has the number of steps that are
--   left as fuel, 3 at the start as in the code.
-- Conversation, Conversation.antt (code_analyzer/kernel/session.py): the queue, the wake rule and the worker's
--   loop as two steps. A text that `jsonl_bytes` of code_analyzer/persist.py cannot encode makes `append` raise.
-- Vulnerability list, Entries.antt (code_analyzer/sesip/pv.py): `build_entries`; the grades, modules and links that
--   the profile gives are arguments.
-- Grounding of claims, Grounding.antt (code_analyzer/evidence/grounding.py): `ground`, as the list of a claim's problems.
-- Views of finding rows, Views.antt (code_analyzer/evidence/findings.py): `view_class` and `unit_of`.
-- Masking, Mask.antt (code_analyzer/llm/index.py, pass A): `_mask_source`, one `Move` for each round of its loop;
--   the loop has the text's length as fuel, of which each round uses one and moves on by one at least.
-- Preprocessor map, Preprocessor.antt (code_analyzer/llm/index.py, pass B): directives, the arms of conditionals and
--   dead spans. The stack of `_conditional_arms` holds places in the list of arms, since the code
--   changes an arm through it.
-- Numbers, Numbering.antt (code_analyzer/sesip/pv.py): `number` and `_num`; the decimal value of a character
--   that is a digit is a parameter.
-- Budgets, Budget.antt (code_analyzer/llm/scan.py): `_reserve`, `_release`, `_observe` and `account` of
--   `_Phase`, and the tests of `_execute_gated`; Budget.Calls has the workers' calls.
-- Traffic light, Broker.antt (code_analyzer/model/broker.py): the two context managers of `Broker`, each as
--   an entry and an exit, and a step relation of the threads.
-- Clusters, Triage.antt (code_analyzer/evidence/triage.py): `cluster` from the rows as it has annotated them, with
--   `line_number` and `key` of code_analyzer/evidence/findings.py.
-- Includes, Includes.antt (code_analyzer/includes.py): the index of the tree's paths, `resolve_include` and
--   `candidate_dirs`.
-- Coverage report, Coverage.antt (code_analyzer/llm/units.py): `coverage_report`, without the quotients.
-- TOML, Toml.antt (code_analyzer/core/tomlw.py): the strings and keys that the writer puts out; Toml.Read is a
--   reader of such strings after the specification of TOML.
-- Not modelled: passes C and D of code_analyzer/llm/index.py, the source reading of code_analyzer/evidence/triage.py, the rest
-- of code_analyzer/sesip, and what is input, output or presentation: the analyzers'
-- processes, SQLite, the web pages, the terminal interface, the model client and the reports.
mod Prelude
pub mod Units
pub mod Plan
pub mod Control
pub mod Status
pub mod Schema
pub mod Ledger
pub mod Jobs
pub mod Approvals
pub mod Risk
pub mod Verdict
pub mod Turn
pub mod Conversation
pub mod Entries
pub mod Grounding
pub mod Views
pub mod Mask
pub mod Preprocessor
pub mod Numbering
pub mod Budget
pub mod Broker
pub mod Triage
pub mod Includes
pub mod Coverage
pub mod Toml
