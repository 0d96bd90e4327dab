-- ===== src/Lib.antt =====
-- OT-SOC Fusion X: the backend's local accounts and sessions, its grouping of incidents and the analyst
-- workflow on them, its communication policy and its offline Modbus decoder.
--
-- The program takes synthetic operational-technology events, decodes them (backend/app/protocols),
-- puts them in the context of an asset inventory and evaluates them against a communication policy
-- (backend/app/context), correlates the findings (backend/app/correlation) and opens incidents
-- (backend/app/incidents), on which analysts work over HTTP. Each request runs in one database
-- session that is committed if the request returns and rolled back if it raises.
--
-- The files:
--   Base, Platform          the shared helpers, and what Python's runtime gives
--   Auth/Model              backend/app/auth/models.py: roles, permissions, users, sessions, events
--   Auth/Store              the tables of the package, its settings, and the library functions
--   Auth/Audit, Security, Passwords, Guards
--                           backend/app/auth/audit.py, security.py (in two files with the base64
--                           below the second) and dependencies.py
--   Auth/Attempts, Login, Users, Registration
--                           backend/app/auth/service.py in four files
--   Auth/Api                the routes of backend/app/api/auth.py as one type of requests, and runs of
--                           them, with the theorems in the modules below it
--   Auth/Sessions           the rewritings of the session table and what they keep
--   Protocols/Model,        backend/app/protocols/models.py: SyntheticModbusEvent and
--     Events, Claims          ProtocolSemanticEvent with the validator of its statement
--   Protocols/Profile       backend/app/protocols/profile.py: LoadedProfile.mapping and .functions
--   Protocols/Contract      the validators of profile.py, with theorems in the modules below it
--   Protocols/Semantics     backend/app/protocols/semantics.py: the statement templates
--   Protocols/Values,       backend/app/protocols/decoder.py: _decode_value, decode_event,
--     Decoder                 _neutral_result and _build_result
--   Protocols/Meaning, Interpreted, Compatible, Provenance
--                           the theorems on the decoder
--   Context/Model           backend/app/context/models.py
--   Context/Identity        backend/app/context/identity.py: resolve_identity, with the index of
--                           inventory.py and the identifier of canonical.py
--   Context/Policy          backend/app/context/policy.py: evaluate_policy and its helpers, with the
--                           theorems in the modules below it
--   Incidents/Model, Tables backend/app/incidents/models.py: enumerations and rows
--   Incidents/Store         the session as the tables in the order of insertion
--   Incidents/Audit, Timeline, Severity, Notes, Lifecycle, PlainText, Workflow, Report
--                           the modules of backend/app/incidents with these names, and workflow.py
--                           in three files
--   Incidents/Candidate, Creation, Enrichment, Intake
--                           backend/app/incidents/service.py from the qualified candidate on, in
--                           three files, with grouping.py, identity.py and the candidate of models.py
--   Incidents/Counts, Counted
--                           the theorems on the evidence count
--   Incidents/Repeated      the theorems on a candidate that is received again
--   Incidents/Operations    the five analyst operations as one type, and runs of requests
--   Incidents/Requests      the route for the status in backend/app/api/incidents.py: the read before
--                           the lock, and the operation with what it has read
--   Incidents/Change        what an accepted operation does to the tables, on which the invariants
--                           of Incidents/History, Trail and Versions rest
--   Incidents/Revisions     the revisions of the reports, under the analyst operations
--   Tests                   runs at concrete inputs
--
-- A handler is a function from the session to a result: an error, or the value with the session
-- after it. An error carries no session, since the rollback drops it. A row that the code mutates is
-- written back under its primary key. Runs are of requests of which each is done before the next one
-- begins. The operations lock the incident before they check it, but the route for the status reads it
-- before the lock where it is to be resolved, and the select under the lock gives the instance of that
-- read. Incidents/Requests has the two reads apart, with whole requests between them.
--
-- The account routes are handled the same way, one request after another: a request is what the guards
-- read of it, sent by the method of the route, its draws are what the random generators give for it, and
-- its time is given. hmac, scrypt, int and the string methods on texts that are not ASCII are
-- parameters, and so are the orders of the database. The constraints of `local_users` and
-- `auth_sessions` on their keys are checked where a row is inserted.
--
-- uuid5, sha256 and repr are parameters, of which nothing is assumed. A datetime is the number of
-- microseconds since the first one. Columns that a CHECK constraint restricts to an enumeration have
-- its type; fields whose type is a literal of one value are left out. The other constraints of the
-- schema and the length and pattern checks of pydantic are not modelled: they reject more. Decimals
-- are exact, as Python's are up to 28 digits. save_incident_report returns the saved row; the
-- display context that the response adds is not modelled. No definition runs on fuel but the
-- decimal digits of a number, which has fewer digits than its value and one more.
--
-- Not modelled: how stored evidence is verified and qualified as the candidate of an incident, context
-- events and findings, correlation, simulation, laboratory runs, the other HTTP routes, account
-- requests that overtake one another, cookies and response models, migrations and the web client.
pub mod Base
pub mod Platform
pub mod Auth
pub mod Protocols
pub mod Context
pub mod Incidents
pub mod Tests
