-- ===== src/Lib.antt =====
-- HenKaiPan, an application security posture platform: an HTTP API and a worker in Go over PostgreSQL,
-- Redis and asynq. This library models the program's own decisions.
--
-- Parts, and how they interact. A worker takes a scan off the queue, clones and scans the target,
-- stores each row of the scanner's output, links it to a vulnerability, applies the policies and
-- queues notifications; a monitor queues those of missed deadlines. Threat intelligence parses
-- manifests into an inventory, asks OSV for advisories, and matches them with the inventory, the
-- findings and the catalog of known exploited vulnerabilities; the threat sync does so for every
-- project, reconciles the hits with the stored ones and notifies of what is new. A scheduler enqueues
-- the scans that are due. The API limits the rate of requests, pages its answers and streams events to
-- its clients.
--
-- Files and code:
-- - Threats (internal/threats): Records (the shared structs), Ecosystem (ecosystem.go), Version and Matcher
--   (matcher.go), Kev (kev.go), Runtime (track2.go), Manifest (manifest.go, one child for each of Npm,
--   GoMod, Requirements, CargoLock, with Sort and Parse for `ParseManifest`), Advisory and Osv (osv.go).
--   A parser is a function into `Result`; a loop over lines carries the source's variables in a record
--   (`GoMod`, `CargoLock`). The decoded package.json is an argument, its maps lists in the order that the
--   iteration takes. `Server` is OSV: two calls, and the order in which the workers of `hydrate` finish.
-- - Tasks (internal/tasks, internal/vulnerability): World (the structs, the trace of calls and the monad
--   `Act`), Scan and Link (`HandleScan` and `linkVulnerability`, scan_run.go), Notify, Email, Breach and
--   Severity (the rest of scan_run.go), Policy (policy_engine.go), Vulnerability (uid.go). A handler is
--   explicit state passing over the list of calls made so far; `Env` answers each call from that list,
--   so that no answer is assumed. Effects counts the calls that a step makes.
--   ThreatNotify, Fetch and Sync (threat_notify.go, threat_fetch.go, threatintel.go), Scheduler
--   (scan_scheduler.go), Mail (email.go).
-- - Repository: Hits (`ReconcileHits`, internal/repository/threats.go): the rows of one project are a map,
--   and a parameter says which writes succeed.
-- - Events (internal/events/events.go): Types, and Hub, a step relation whose steps are the calls of the
--   subscribers and the turns of `run`; a send that waits is a step that has not been taken yet.
-- - Scanner (internal/scanner): Common, Sarif, Grype, OsvScanner, Secrets, Checkov, Kics and Nuclei
--   (parsers.go, from the decoded documents to the rows), Snippet (snippet.go), Registry (registry.go).
-- - Webhook: Signature (internal/webhook/signature.go). Secrets (internal/secrets/secret.go).
-- - Http: Pagination (internal/pagination), RateLimit and Ownership (ratelimit.go and
--   ownership.go of internal/middleware).
-- - Strings, Maps and Prelude: the functions of Go's library that these use, and shared lemmas. Each file
--   `X/Laws`, or one named after what it proves, holds the proofs on X. Tests applies the theorems.
--
-- Bounds and fuel. A string is a list of bytes; white space and letter case are those of ASCII. An `int`
-- has 64 bits where it can overflow: `atoi` and the offset of a page. `chunk_from` has the number of rows
-- as fuel, which is enough for every positive size; all other loops are structural. A float64 is known by
-- the comparisons that the code makes of it. A line of a manifest is at most 1 MiB, as in the source. A
-- time is a number of seconds.
--
-- Not modelled: the SQL of internal/repository, the handlers of internal/handlers and the frontend, which
-- pass values through; the HTTP transport, JSON, SHA-256, HMAC, AES-GCM, SMTP, `url.Parse`, cron
-- expressions, Redis and asynq, which are parameters; the tickers; logging; the formatting of webhook
-- deliveries; cloning and running scanners, which are calls of `Env`; the symbolic links of a clone, a
-- file being known by its path; the CVSS score, the publication time and the raw bytes of an advisory; the
-- language models of internal/ai. The sorting of `ParseManifest` is an insertion sort with the source's
-- comparison.
pub mod Prelude
pub mod Strings
pub mod Maps
pub mod Threats
pub mod Tasks
pub mod Http
pub mod Repository
pub mod Events
pub mod Scanner
pub mod Webhook
pub mod Secrets
pub mod Tests
