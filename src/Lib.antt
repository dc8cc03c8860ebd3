-- ===== src/Lib.antt =====
-- A model of the Sidestage copilot (`src/` of the repository): an assistant that drafts replies to
-- the buyers of a live show and proposes writes to its catalog, with a human in the loop until the
-- seller has earned a rung of autonomy.
--
-- The parts and how they interact:
--   A line of chat is classified, gated and queued by the pipeline's intake. The fan-out starts its
--   draft; retrieval and the composer, which are parameters, give a text, which the eight guards
--   check over the current listings, with one repair. The ladder decides what happens to it: it is
--   delivered, shown to the operator, who sends, edits or dismisses it, or held. Counters, an outbox
--   and a ledger record what happened. Every line that is not a reaction is a signal too, from which
--   the proposer plans an action; the rail proposes it to the executor once. Preflight measures the plan
--   against the seller's limits and captures the prior state; the executor stores it, and on an
--   approval writes it twice: at the marketplace through a two-phase protocol, and in the local
--   tables in one transaction with a ledger row. A rollback writes the captured state back. The limits bound who may call, open a browser and spend.
--
-- The files:
--   Prelude, Dict        what all files share; a JavaScript `Map` or a table as a list of pairs
--   Domain               src/domain/types.ts, the capability rows of src/surfaces/types.ts
--   Js                   values from outside, with `Number(…)` and `String(…)` as parameters
--   Catalog              src/domain/repo.ts: mutateListing, setPinned; Observed is upsertObservedLot
--                        and recordSale
--   Autonomy.Ladder      src/autonomy/ladder.ts: decideReply, decideAction
--   Autonomy.Promotion   src/autonomy/promotion.ts: promotionReadiness
--   Ingest.Classify      src/ingest/classify.ts: classify, classifyStance, classifySpeechAct, admit
--   Ingest.Bucket        src/ingest/classify.ts: RateLimiter
--   Ingest.Thread        src/ingest/threadContext.ts: branchAbove, buildThreadContext
--   Guardrails.Input     src/guardrails/types.ts and the facts, drafts and policy that it names
--   Guardrails.Guards    src/guardrails/guards.ts: GUARDS, with a child for each group of guards
--   Guardrails.Chain     src/guardrails/chain.ts: runChain, confidenceOf
--   Pipeline.State       src/pipeline/pipeline.ts: the fields of Pipeline, constraintsOf, deliveryFor,
--                        record
--   Pipeline.Intake      ingest of the same file; Pipeline.Fanout its pump and stop
--   Pipeline.Draft       draft, addHostFacts, researchGrounding and regenerate; Finish is finish
--   Pipeline.Send        send and dismiss; Evict is evict; Rail is evaluateActions
--   Pipeline.Accounts    runs of these operations
--   Actions.Proposer     src/actions/proposer.ts; the price and `median` in its Pricing
--   Actions.Preflight    src/actions/preflight.ts; the idempotency key in its Keys
--   Actions.Port, Mock   src/actions/marketplace/port.ts and mock.ts
--   Actions.Store        src/actions/executor.ts: ActionStore
--   Actions.Executor     src/actions/executor.ts: propose, reject, approve, rollback, over a World
--                        of tables, audit notes, callbacks and the marketplace's own state
--   Actions.Audit        src/actions/audit.ts: append, verify
--   Limits.Rate, Gate    src/api/rateLimit.ts: RateLimiter; Gate as a step relation
--   Limits.Browser       src/surfaces/browserBudget.ts: takeBrowser, release
--   Limits.Budget        src/llm/billing.ts: SpendWindow; src/llm/budget.ts: BudgetWatch
--   Latency.Cache        src/latency/cache.ts: ReplyCache
--   Latency.Spans        src/latency/spans.ts: LatencyTracker, pct
--   Surfaces.Rooms       src/surfaces/rooms.ts: SurfaceRooms
--   Surfaces.Reddit      src/surfaces/reddit/poll.ts: Seen, RedditPoller
--   Surfaces.FollowUps   src/surfaces/dm/drafts.ts: FollowUpInbox
--   Shows.Resume         src/shows/resume.ts: planResume
--   Shows.Metrics        src/shows/metrics.ts: the rates, durationMin
--   A module's Laws, and the children of Approve and Rollback, hold its theorems; Examples
--   applies them.
--
-- Conventions: every loop is structural, the retries of a draft by the number that is left. Only
-- the climb up a thread is on fuel, as much as there are messages: each step leaves one fewer, so
-- more fuel changes nothing. Money is in whole cents, a
-- confidence in hundredths, a discount in ten-thousandths of a percent, a rate of the promotion in
-- thousandths, a spend in ten-thousandths of a dollar; quotients are exact where the source's are
-- binary fractions, and the promotion's rounding of a half is a parameter. Difference on natural numbers stops at 0, and each use says what the source does
-- there. An operation that awaits runs without interleaving, but for the gate and
-- for `draft`, where `meanwhile` is what other calls do while the composer is awaited. `none` from a write
-- is a statement that throws; in the executor the statements that may throw are fields of Env. Times and draws of chance are arguments.
--
-- Parameters: the marketplace (a record of operations on a state of its own; the shipped mock is an
-- instance), SHA-256 and JSON (Audit.Platform), the language's own conversions (Js.Runtime), the
-- regular expressions and text operations of the gate (Lexicon) and of the guards (TextTools), the
-- retriever, the host's speech, the research card and the composer (Draft.Attempt), the deliverer,
-- the prices of comparable sales, the hash of a lot's title, the surface that an id opens.
--
-- Not modelled: setAutonomy, dryRun and metrics of the pipeline, retrieval scores, prompts and language models, the
-- clients of the surfaces, scraping and media, the reports of shows, routing, accounts, migrations
-- and logging. Summaries, rationales and the details of checks are left out.
pub mod Prelude
pub mod Dict
pub mod Domain
pub mod Js
pub mod Catalog
pub mod Autonomy
pub mod Actions
pub mod Guardrails
pub mod Limits
pub mod Latency
pub mod Examples
pub mod Surfaces
pub mod Ingest
pub mod Pipeline
pub mod Shows
