-- ===== src/Lib.antt =====
-- The TypeScript core of the project server's two web clients, modelled and verified.
--
-- The program. `web/` is the web interface of the project server: it reads a project's code map, its
-- requirements and its settings over HTTP, and shows them. `pcs-control-panel-project/` is a second
-- interface, with a copy of the code map's merge and with the plans and their tasks. Both keep their
-- logic apart from React: the code map is merged, one response after another, into a graph that the
-- views read; the plans' tasks are tested for readiness and laid out in layers; each interface has a
-- client that builds its requests and checks what comes back; and the shell of the web interface reads
-- its routes, and highlights source text.
--
-- Where each part is modelled:
--   Js/        strings as lists of UTF-16 code units (Str), sets and maps in the order of insertion
--              (Set, Map), JSON values (Json), numbers of forms (Number), and the stable sort (Sort): the values of the language
--              that the code uses
--   Api/       the shapes of web/src/api/types.ts, and of the plans in
--              pcs-control-panel-project/lib/api-client-react/src/generated/api.schemas.ts
--   CodeMap/   web/src/lib/codemap.ts, with the merge of
--              pcs-control-panel-project/artifacts/pcs-control-panel/src/lib/codemap.ts under the
--              name panel_merge_code_map. Graph has the state (nodes, edges, loaded scopes) and
--              mergeCodeMap; Invariant and Fans its well-formedness; Merge what a response can change;
--              Locate has locateHit and the loop `locate` of web/src/views/CodeMapView.tsx; Overlay
--              and Related have overlayTone and relatedEntries; Doc has web/src/lib/codemapDoc.ts; Tree
--              has the tree of the control panel's App.tsx
--   PlanTasks/ pcs-control-panel-project/artifacts/pcs-control-panel/src/lib/planTasks.ts: leases and
--              readiness (Ready), and layoutDag (Dag); Dag/View has what DagView.tsx shows of it
--   Client/    web/src/api/client.ts: Request has `request`, Settings has parseAiSettings, Endpoints
--              and Requirements have the request of each endpoint's function, and Calls has the calls
--              that check their response; Paths has what a path says
--   Claims     pcs-control-panel-project/artifacts/pcs-control-panel/src/pages/Plans.tsx: the tokens of
--              claimed tasks, and the handlers of the server's answers; History has runs of answers
--   TaskCard   pcs-control-panel-project/artifacts/pcs-control-panel/src/components/plans/TaskCard.tsx:
--              the buttons of a task's card and what Plans.tsx does at a press; Authority has what the
--              tokens of Claims permit, Countdown the time that is left
--   PlanForms  the forms of Plans.tsx: Sent has what they send, Selection which plan is shown
--   PlanDialogs AiPlanDraftModal.tsx and ClaimModal.tsx of the same folder as TaskCard.tsx: Review has
--              the drafted plan and its approval, Claimed the dialog of a claim
--   PanelQueries the query keys of pcs-control-panel-project/lib/api-client-react/src/generated/api.ts
--              and what the edits of App.tsx and Plans.tsx there invalidate of them (Refreshed)
--   PanelHome  pcs-control-panel-project/artifacts/pcs-control-panel/src/App.tsx: the registration and
--              the deletion of projects (Confirmed)
--   PanelSettings the same file: the cards of the AI providers (Saved, Opened) and of the admin token, which
--              the requests of Fetch/ carry (AdminToken)
--   TokenSavings lib/tokenSavings.ts of the control panel; Impact has the order of its breakdown
--   ErrorBoundary components/error-boundary.tsx of the control panel; Cleared what clears an error
--   WebForms   the forms of web/src/components and web/src/views, and what they hand on (Handed)
--   Compliance/ web/src/hooks/useRequirementCompliance.ts: the batches of a compliance review
--              (Batches) and what their aggregate says (Complete); it sends the requests of Client/;
--              and Labels, of web/src/components/RequirementCompliance.tsx
--   Drafts/    pcs-control-panel-project/artifacts/pcs-control-panel/src/lib/planDraft.ts: a drafted
--              plan as the tasks of the dependency view (Prerequisites, Layers), which PlanTasks lays
--              out, and as the input of its creation
--   Fetch/     pcs-control-panel-project/lib/api-client-react/src/custom-fetch.ts: the tests on
--              responses (Media), the errors and their messages (Errors, Message), the readers of
--              bodies (Bodies), what is handed to `fetch` (Requests, Headers, Prepared, Tokens), and
--              customFetch itself (Calls, Answered)
--   Hooks/     web/src/hooks: Queries and Mutations have what the hooks hand to the query library, with
--              the requests of Client/ and the keys of Router; Owned and Fresh what holds of them
--   Highlight/ web/src/lib/highlight.ts: Pieces has what the scanner cuts off at each step, Tokens the
--              list of tokens, Lossless the whole run
--   Toasts/    pcs-control-panel-project/artifacts/pcs-control-panel/src/hooks/use-toast.ts: the
--              reducer and the timers; Reach has the runs, as sequences of actions and expiries,
--              SingleSlot the machine with one slot that they refine, Calls `toast` and `dismiss`
--   SettingsForm web/src/views/AiSettingsView.tsx: the forms of the AI settings, and their secrets
--              (Secrets)
--   Summaries  web/src/lib/requirements.ts, web/src/lib/semantic.ts, and features.ts and
--              deleteProject.ts of pcs-control-panel-project/artifacts/pcs-control-panel/src/lib; Filters
--              has the requirements page and the load errors of App.tsx there
--   Router     web/src/routes.ts, matchPath of web/src/router/context.ts, and the keys and
--              isRefreshable of web/src/api/queryKeys.ts; Shell and Landing have `resolve` and `App`
--              of web/src/App.tsx
-- A function keeps its name, in lower case with underscores.
--
-- Bounds and fuel. Counts, sizes and line numbers are natural numbers without a bound. layoutDag's
-- recursion runs on fuel, one more than the number of tasks, and is proved never to use it up. The
-- loop `locate` runs at most the five rounds of the source. The highlighter runs on one unit of fuel
-- more than the source has code units, with `none` where it runs out, and chunksOf on the number of
-- identifiers; both are proved to be enough, since nothing of the source or the list is left.
--
-- What the runtime provides is a parameter: the parser of dates, `fetch`, `encodeURIComponent`,
-- `decodeURIComponent`, `URLSearchParams.toString`, `JSON.stringify`, `JSON.parse`, `new URL`, `String`
-- of a number, `toLowerCase`, `toUpperCase`, `localeCompare`, `Number.isFinite`, and the type of
-- numbers that need not be natural. The server's answers to `locate` and to the compliance review, and
-- the control panel's token getters, are parameters too.
--
-- Not modelled: the query library; React components and pages, but for the parts above; the vendored
-- ui folders; generated clients; the server in Python; downloads through the DOM; asynchrony, where a
-- promise is its outcome; the error that `encodeURIComponent` throws at a lone surrogate; dates before
-- 1970; what `Headers.set` makes of a value, which it rids of white space at its ends or refuses; a
-- second submit of a settings form while one is under way, for which its button is disabled. Default
-- arguments are given by callers.
pub mod Prelude
pub mod Js
pub mod Api
pub mod Claims
pub mod TaskCard
pub mod PlanForms
pub mod PlanDialogs
pub mod Client
pub mod CodeMap
pub mod Compliance
pub mod Drafts
pub mod Fetch
pub mod Highlight
pub mod Hooks
pub mod PanelQueries
pub mod PanelSettings
pub mod PanelHome
pub mod PlanTasks
pub mod Router
pub mod SettingsForm
pub mod Summaries
pub mod Toasts
pub mod TokenSavings
pub mod WebForms
pub mod ErrorBoundary
