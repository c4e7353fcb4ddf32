-- ===== src/Lib.antt =====
-- Verification of the core of GetMCP's API server: the policy engine that decides what an agent's
-- request may do, the approval of held requests, the proxy that sends requests on, the generation of
-- the servers that agents see, and the audit chain that records what was done.
--
-- The program. A call of an agent (apps/api/src/proxy/proxy.controller.ts) is let in with an API key
-- (auth/auth.guard.ts), its agent is looked up (agents/agent.service.ts), and PolicyService
-- (policy/policy.service.ts) evaluates it by the rules of its organisation, with an anomaly score
-- where a rule asks for one (baseline.service.ts). A rule matches by method and path template
-- (path-match.util.ts) and then allows, blocks, asks for a reasoning (reasoning.util.ts), holds the
-- request for approval, spends a token of a rate limit (rate-limiter.ts), or acts on the score; the
-- rules are tried by priority (policy.engine.ts). What is allowed is sent to the organisation's
-- upstream (proxy/proxy.service.ts); what is held waits in apps/api/src/approval for votes, which come
-- through Slack (slack/slack.controller.ts). The servers that agents call are generated from a spec
-- (apps/api/src/generator), whose endpoints are classified so that the external one offers only some.
-- What comes of a request is appended to the organisation's audit log, each row holding the hash of the
-- row before it (apps/api/src/audit/audit.service.ts, canonical.util.ts).
--
-- The files.
--   Base         lists, texts, maps, Boolean tests and numbers in decimal
--   Json         the JSON of a rule's actionConfig, and the tests that the engine makes of it
--   Policy.Reasoning    isValidReasoning and reasoningRejectionReason
--   Policy.RateLimiter  RateLimiter.consume and reset; Soundness and Bound prove about it
--   Policy.PathMatch    normalize, pathMatches and methodMatches; Regexp has templateToRegExp and the
--                regular expressions that it yields, Template the independent reading of templates
--                as segments; Compile, Tokens, Whole and Semantics relate the two, Laws concludes
--   Policy.Rule  the types of policy.engine.ts
--   Policy.Engine       evaluate: `step` is the body of its loop, `dispatch` its switch, Engine.Order
--                sortRules; Sorting, Steps, Safety, Isolation, Tenants and Total prove about it
--   Approval     Approval.Pending: the held requests and transitionPending of
--                apps/api/src/approval/approval.service.ts;  Store: createPending;  Service: approve, deny, expire,
--                getById and sweepExpired;  Quorum: approveWithQuorum;  Moves, Laws,
--                History, Entries and Votes prove about them
--   Cache        the time-to-live caches; Freshness: what is served was true not long ago
--   Agents       AgentService of apps/api/src/agents/agent.service.ts; Staleness: calls in flight together
--   Policy.Baseline     BehavioralBaselineService (policy/baseline.service.ts); Quotients its fractions;
--                Counts and Scores prove about it
--   Policy.Service      PolicyService (policy/policy.service.ts); Currency and Failures prove about it
--   Access.Hex   buffers in hexadecimal;  Secrets: apps/api/src/crypto.util.ts;  Keys and Guard:
--                apps/api/src/auth/api-key.util.ts and auth.guard.ts;  Signature:
--                apps/api/src/slack/slack.signature.ts
--   Slack        the interactions of apps/api/src/slack/slack.controller.ts;  Actions: the
--                votes and denials;  Decisions and Authority: who decides
--   Proxy.Headers       the headers and URLs of apps/api/src/proxy/proxy.service.ts;  Forward:
--                forwardUpstream;  Intercept: interceptAndExecute
--   Proxy.Call   the requests, responses and entries of proxy.controller.ts;  Controller:
--                executeAgentAction;  Stream: the streamed answer and its one entry
--   Generator.Heuristic heuristicClassify of apps/api/src/generator/heuristic.ts;  Classifier and Table:
--                classifier.service.ts;  Build: buildFromClassifications of generator.service.ts; Safety,
--                Laws, Overrides and Exposure prove about them
--   Audit.Canonical     canonicalJson;  Audit.Payload: rowToHashable and computeAuditHash
--   Audit.Store  the two tables, with the queries;  Audit.Record: record;  Audit.Verify: verifyChain
--   Audit.Browse        list and export of apps/api/src/audit/audit.controller.ts, and View: the table of
--                apps/web/src/pages/Audit.tsx that pages through them
--   Audit.Chain  what a chain is and what the walk finds; Paging, Extend, Laws and
--                Effects prove about it
--
-- The state. The limiter's buckets and the database are passed explicitly. The clock's reading is an
-- argument. In `record` each try of the transaction has what the database answers when it would
-- commit: nothing, or an error's code; a second row with the same number is refused by the unique
-- index. A throw of `pathMatches` or `canonicalJson` is the result `none`.
--
-- Bounds and fuel. `verify_chain` runs on one unit of fuel more than there are rows, enough because
-- every page but the last holds rows. `record` is run on a list of answers; six are enough. The
-- batches of a spec's endpoints run on as much fuel as there are endpoints, and the export on one unit
-- more than there are rows.
--
-- What is not modelled. Numbers are exact: token counts and scores are fractions where the source
-- has doubles, so that a retry time may differ by a millisecond, and the numbers of an audit row
-- are whole. Upper and lower case are of ASCII. SHA-256 is a parameter. Rows are not added while
-- `verify_chain` reads. Node's crypto functions, the upstream and the database's queries are
-- parameters or arguments. A call's body names a path. The reading of forms and of JSON is a
-- parameter. The awaits in the evaluation of a request and in the scoring take no time, nor does
-- the replay of an approved request: nothing comes between its approval and the storing of its
-- outcome, and a reader never meets an approved request without one that is still under way. The
-- storing may fail; the other queries on held requests do not. The lists and statistics of held
-- requests, the hash of a spec and the generated files are not modelled; nor are the layout and
-- sending of Slack messages, latencies, metrics, the other pages of the dashboard and the web
-- framework's wiring, which hold no decision of their own.
pub mod Access
pub mod Agents
pub mod Approval
pub mod Audit
pub mod Base
pub mod Cache
pub mod Generator
pub mod Json
pub mod Policy
pub mod Proxy
pub mod Slack
