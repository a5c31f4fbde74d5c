-- ===== src/Lib.antt =====
-- Four parts of AlphaAgent: the operations ledger (src/aios/alerts.py) with the dispatcher of its
-- messages (src/aios/notifications.py), the journal of forward rollovers
-- (src/aios/rollover_journal.py), the calendar of the U.S. equity market
-- (src/aios/market_calendar.py), and the registry of markets (src/aios/markets.py).
-- The ledger is one SQLite file that holds incidents, the messages about them (the outbox), the
-- attempts to deliver each message, the delivery routes, and the runs of jobs. A job that notices a
-- symptom emits an alert, which opens or repeats an incident and writes a message in the same
-- transaction; a worker claims due messages under a lease, sends them, and completes each attempt; an
-- operator enables a route, and acknowledges or resolves incidents.
-- A rollover replaces a forward trial; it writes each phase that it reaches to a file of the attempt's
-- directory, and a recovery reads the directory to decide how to go on. The calendar says which days are
-- sessions. The registry holds markets, their venues, and the dated listings of securities at venues; a
-- query asks for the listing of a day as it was known on another. These three do not call one another
-- or the ledger.
--
-- Base       the helpers that the modules share: tests and conditionals, lists, and SQL over a table
--            held as the list of its rows in rowid order (Base.Table: SELECT, UPDATE, EXISTS, ORDER
--            BY; Base.Sort: ORDER BY and LIMIT; Base.Found: the rows found after a write; Base.Tally:
--            how many a test selects; Base.Text: what the code uses of str).
-- Json       JSON values. A payload stands for the value of its canonical text, its members in
--            key order, so that two payloads are equal when their texts are.
-- Alerts.Schema    the enumerations and rows of the tables, and the data classes.
-- Alerts.Payload   _redact, _payload_json, _provider_response_json.
-- Alerts.Ledger    the seven tables as a record, the errors, and transactions.
-- Alerts.Checks    the validators (_validate_bounded_text and its like).
-- Alerts.Outbox    enqueue_notification, hold_notification, claim_notifications,
--                  complete_notification_delivery, _recover_expired_notification_leases,
--                  _hold_unreachable_recoveries, _resolve_notification_id.
-- Alerts.Routes    enable_notification_route, disable_notification_route.
-- Alerts.Incidents emit, acknowledge, resolve, _enqueue_incident_notification, the evidence hash.
-- Alerts.Jobs      begin_job, finish_job.
-- Alerts.Safety    any sequence of operations on the outbox (Safety.Run), from a rule for each kind of
--                  step (Safety.Advance) and one module for each operation.
-- Alerts.Ends, Alerts.Reads   what a transaction returns when it commits, and which parts of one write
--                  nothing.
-- Alerts.Delivery  claims and completions: order, leases, retries, expiry.
-- Alerts.Effects   the other operations: repeated requests, scopes of claims, disabled routes, job runs,
--                  symptoms seen again, resolutions, redaction.
-- Dispatch         dispatch_notifications, dispatch_email_notifications; what a channel's `send` did with a
--                  message is a parameter. An exception there keeps what earlier transactions committed.
--                  Dispatch.Trace says what a pass did, Dispatch.Loop and Dispatch.Rounds follow it through
--                  the two loops, and Dispatch.Counts compares it with the summary.
-- Rollover.Schema, Rollover.Values, Rollover.Payload   the phases and files of an attempt, and
--                  _validate_attempt_payload with the validators that it calls.
-- Rollover.Files   build_attempt_payload, read_attempt_phase, write_attempt_phase,
--                  validate_attempt_directory.
-- Rollover.Chain   the sequences of phases that may be left, as a step relation; Rollover.Rounds,
--                  Rollover.Steps and Rollover.Order relate it to the loop, and Rollover.Write,
--                  Rollover.Build, Rollover.Readings, Rollover.Accepted, Rollover.Extend and
--                  Rollover.Start are about written files.
--                  Rollover.Verdicts and Rollover.Facts: what a check that passes leaves.
-- Calendar.Dates   Python's date; Calendar.Sessions the functions of the calendar; Calendar.Years,
--                  Calendar.Holidays, Calendar.InYear, Calendar.Window and Calendar.Latest the proofs.
-- Markets.Schema   the rows and the refusals; Markets.Checks the validators; Markets.Registry the
--                  registrations and queries; Markets.Outcomes, Markets.Active, Markets.History,
--                  Markets.Invariant, Markets.Isin and Markets.Lookup the proofs.
-- Rollover.Tests, Calendar.Tests, Markets.Tests   an attempt of two phases, some years and some
--                  listings.
-- Alerts.Samples, Alerts.Tests, Dispatch.Tests   small ledgers, and the theorems at them.
--
-- How the state corresponds to the code. A table of the ledger is the list of its rows in rowid order;
-- its rows are never deleted by the code. A transaction is a function from a ledger to an error or to a value
-- and a ledger: BEGIN IMMEDIATE serializes writers, and an exception rolls the block back. PRIMARY
-- KEY, UNIQUE and REFERENCES are checked where a row is inserted, and raise `integrity`. A time is a
-- number of seconds, since the ledger writes UTC texts of one width to the second. The identifiers
-- that uuid4 draws are a parameter, a function of the number of earlier draws; nothing is assumed of
-- it. The digest of hashlib, the ISO text of a time, and the test whether a process lives are
-- parameters too. Loops run over the rows that a SELECT returned, so no fuel is needed, but
-- for the `while` of the dispatcher, which takes one unit for each message of its limit (enough, since
-- a round claims one message or is the last), and for the count of the digits of a number, which takes
-- the number itself.
-- An attempt's directory is the list of its entries in the order of iterdir; the content of a file is
-- the JSON value of its text, its members in key order, or nothing where it is no JSON text; a payload
-- is such a value too, so that it holds no NaN, which the canonical text refuses. A write gives the
-- directory that it leaves also where it is refused, and creates a directory that is missing. The
-- digest of a canonical text, the moment that a text denotes and the integer that a float equals are
-- parameters (Rollover.Schema.Host). A date is its proleptic Gregorian ordinal, an instant a number of
-- microseconds, and the time zone America/New_York a parameter (Calendar.Sessions.Zone). The loops of
-- the calendar run over the years and the days of the range, so they need no fuel.
-- In the registry str.upper and the zones that zoneinfo finds are parameters (Markets.Schema.Python);
-- INSERT OR REPLACE removes the row with the primary key of storage/schema.py and adds the new one.
-- Values that Python's types exclude (a severity that is no AlertSeverity, a naive datetime, a
-- finished state other than success or failed) are excluded by the types here. Text is
-- compared and lowered as ASCII, which the code's own markers and digests are.
--
-- Not modelled: attest_legacy_resolution, resolve_fingerprint and the proofs of producers, anomaly
-- cases, listings and summaries, which only read, the migration of older schemas, and SMTP; of the
-- journal the paths of its directories, interrupted writes and fsync; of the calendar years outside 1 to
-- 9999, where Python raises; of the registry the parsing of dates, and rows that it did not write.
pub mod Base
pub mod Json
pub mod Alerts
pub mod Dispatch
pub mod Rollover
pub mod Calendar
pub mod Markets
