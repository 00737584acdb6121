-- ===== src/Lib.antt =====
-- Verification of the backend of Tolmach, self-service analytics over SQL (README.md).
--
-- A question becomes an interpretation, which the semantic layer plans and compiles to SQL over its
-- governed catalog (backend/app/semantic/), which the guardrails approve (its sql_validator.py), which is
-- run with a result cache and an audit (backend/app/query_execution/), and which scheduled reports
-- run again (backend/app/reports/).
--
--   Common      equality tests, lists, dictionaries and texts, as Python has them
--   Json        the JSON values passed between the parts
--   Settings    backend/app/config.py, the settings that the modelled code reads
--   Guardrails  backend/app/semantic/sql_validator.py: Patterns are its regular expressions, Validator
--               is validate_sql with a function for each check, Ensure is ensure_safe_sql
--   Execution   backend/app/query_execution/: Fingerprint is fingerprint.py, Cache the table of cached
--               results and Service execute_safe_query, both of service.py
--   Reports     backend/app/reports/: Calendar is next_run_at of scheduler.py, Execute its
--               execute_report_run, with Session and Delivery, Queue, Claim and Cycle its table of runs.
--               Recipients are those of service.py, Heartbeat is worker_runtime.py, Records are the
--               tables of models.py and the errors of errors.py. A run calls the guardrails and the
--               execution of queries by an interface, Session.Services, which Execute/Guarded and
--               Execute/Stored fill with those of the program
--   Auth        backend/app/auth.py: sessions, the CSRF check and the administrator check
--   Confidence  backend/app/ai/confidence.py: the score of an interpretation
--   Semantic    backend/app/semantic/: Errors is errors.py with the calls that may raise, Template is
--               `str.format`, Catalog the definitions of service.py; Literals, Clauses, Dedupe, Loops and
--               Planner are planner.py from its literals up to plan_sql_query, Compiler is compiler.py,
--               Fragments and Validators are validators.py; Store is repository.py over its tables,
--               Admin the handlers of service.py that change the rows, Linked the sequences of their
--               requests, one after another, Mapped the table of metrics as a map, and Layer the
--               validation of the whole layer
--
-- Texts are lists of code points. The interpreter's Unicode tables are a parameter for code points
-- from 128 on, with what the program relies on (a digit is a word character, white space is not, only
-- letters fold to ASCII letters, lower case stays as it is); below 128 the classes are written out.
-- `lower` maps each character by itself. Loops over texts, lists and tables are structural recursions,
-- so no fuel is needed there. `show` prints a numeral with fuel n + 1, enough since each step divides
-- the rest by ten. `int` is read without the interpreter's limit of 4300 digits.
--
-- Parameters: the parser sqlglot, a function to what the validator reads of a statement;
-- `strptime`, `float` and `repr` for the values of filters; the policy loader and EXPLAIN; the
-- analytics database; the hash and the random tokens; the delivery of messages and the building of
-- artifacts; every reading of the clock. Exceptions are values with their message. A plan's cost is
-- counted in hundredths. Database tables are lists of rows, and one process works on them; a
-- handler of the semantic layer is one step, and no patch sets a field to null. Not modelled: HTTP,
-- the database connection, language models and the user interface.
pub mod Common
pub mod Json
pub mod Settings
pub mod Guardrails
pub mod Execution
pub mod Reports
pub mod Auth
pub mod Confidence
pub mod Semantic
