-- ===== src/Lib.antt =====
-- The browser client, its pages and the database layer of the agent workflow frontend (frontend/src).
--
-- The browser talks to a FastAPI backend through `apiFetch`, which maps the paths of the old API,
-- adds a CSRF token and recovers once from a refused one; the session calls stand on it. On the
-- server side the database layer keeps users' memberships and permissions in workspaces, and chats,
-- messages and documents.
--
-- Base: equality, lists, sets and effects. A promise is a value of `Result`, stateful code a
--   function of the state (`Io`); a rejected promise keeps the state that was reached.
-- Permissions (frontend/src/lib/permissions.ts): Catalog has the roles, the catalogue and the
--   defaults, Effective `getEffectivePermissions` and `hasPermission`. Laws and Order describe them
--   by the last override of each permission.
-- Database: Engine states what `orderBy` of PostgreSQL does, and is a parameter of the queries.
--   Sorting is one engine.
-- Workspace (frontend/src/lib/db/workspaceQueries.ts): Tables, Roles and Membership have the rows,
--   the lookups and `listWorkspaceMembers`; Access has the transaction of
--   `updateWorkspaceMemberAccess`, in Update, and what it checks (Checks), writes (Writes,
--   Overrides) and guarantees (Laws). It uses Permissions for the defaults of a role. A transaction
--   that throws leaves the tables as they were.
-- Http (frontend/src/lib/backend/directClient.ts, mode.ts, request.ts, frontend/src/lib/utils.ts,
--   frontend/src/lib/auth/localSession.ts): Urls has the mapping of addresses, with its routes one by
--   one in Routes, Client `apiFetch`, `apiUpload` and the cache of the CSRF token, Session the calls on
--   the session. On `apiFetch`
--   stand Requests, with `requestBackend` and `requestBackendEventStream`, whose frames Streams cuts
--   out, and Fetchers, with `fetcher` and `fetchWithErrorHandlers`, which rebuild the errors of
--   Conversations. `apiFetch` asks the token's cache, which fetches tokens with `apiFetch`; a GET
--   asks for no token, which ends the circle, and the model ties it without fuel.
-- Ingestion (frontend/src/components/upload/automatedIngestion.mjs): Wait has
--   `waitForAutomatedIngestion`, over a service whose answers depend on all that was done before;
--   Trace, Done, Pages, Bounds, Readiness and Progress are about what it reads, its result, its end and
--   its success.
-- Polling (frontend/src/components/upload/knowledgeFileLibraryPolling.ts): Poller has the calls of
--   `createSingleFlightPoller` and the turns in which they overlap, Flights what holds after any
--   turns.
-- ChatHistory (frontend/src/lib/backend/chatHistoryCache.ts,
--   frontend/src/components/chat/sidebarHistory.tsx): Cache has `upsertChatHistory`, Sidebar the list
--   of chats, with `groupChatsByDate` and `handleDelete`, which stands on `requestBackend`.
-- Conversations (frontend/src/lib/errors.ts, frontend/src/lib/db/queries.ts): Errors, the tables,
--   the statements with the keys of frontend/src/lib/db/schema.ts, the queries and the pages of
--   chats. Contract is an abstract view of chats and messages, which forgets order and
--   representation, and what each call promises of it; Contract/Refinement is about the queries on a
--   database, and Mock about the maps of frontend/src/lib/db/mock.ts.
-- Artifacts (frontend/src/lib/artifacts/server.ts, frontend/src/artifacts,
--   frontend/src/components/chat/dataStreamHandler.tsx): Handlers has `createDocumentHandler` with the
--   handlers of texts, code and sheets, which write parts to a stream and store the document with
--   `saveDocument`; Fences `stripFences`; Panel what the browser makes of the parts, with
--   `upsertChatHistory` for a title. Batches, Streaming and Saving join the two ends. Versions
--   has the versions of a document in frontend/src/components/chat/artifact.tsx.
-- Uploads (frontend/src/components/upload/uploadPage.tsx): Page has the items and the handlers on them,
--   over `requestBackendUpload`; Answers says what becomes of an item by the answer to its request.
-- Accounts (frontend/src/lib/auth.tsx, frontend/src/lib/auth/applicationAuth.tsx): Session is the
--   session that the browser holds, over the calls of Http/Session; Application the status of the user,
--   which refused requests change through the handler of Http/Requests.
-- Settings (frontend/src/components/settings/memberPermissions.tsx): Members has the page on which
--   roles and permissions are edited, with the roles of Permissions, Invitations the invitations.
-- Library (frontend/src/components/upload/knowledgeFileLibrary.tsx): Loads has the abort controllers of
--   a list that is loaded, Page the lists of files and parsed documents with their handlers, Started
--   the calls that parse files and generate chunks, Chunks the chunks of one document. Overlaps lets
--   clicks, effects and answers follow each other in any order.
-- Examples: concrete data for the theorems.
--
-- Numbers are natural numbers and times are numbers of milliseconds. The length of a list bounds
-- every recursion but two: the attempts of an ingestion, whose number is given, and its loop over
-- the pages of chunks, which runs on fuel; a bound of the offsets of the pages is enough fuel. The
-- network, the clock, `encodeURIComponent`, `new URL` on a path, `toUpperCase`, the order of rows,
-- `JSON.parse` of an event, the timer of a request, the reads of a stream and the statements that a
-- server refuses are parameters. Tables are lists of rows.
--
-- Calls run one at a time, but for three step relations under calls that overlap: Http/Client/Refresh
-- on the shared promise of `getCsrfToken`, Polling on the poller, and Library on the loads of its lists.
--
-- The handlers of a page run one after the other; what a language model streams, the calendar of
-- date-fns, `toLowerCase`, the writing and the rounding of numbers, and what the backend answers on
-- the settings page are parameters too.
--
-- Not modelled: two transactions at once, the progress of an upload in directClient.ts (the upload page
-- takes any reports of it), creating users in queries.ts and mock.ts, the other components, hooks and
-- texts of the interface, the editor (lib/editor/diff.js is a copy of another project's library), and
-- the backend under app/, which is a program of its own that the client reaches over the network.
mod Base
pub mod Permissions
pub mod Database
pub mod Workspace
pub mod Http
pub mod Ingestion
pub mod Polling
pub mod ChatHistory
pub mod Conversations
pub mod Artifacts
pub mod Uploads
pub mod Accounts
pub mod Settings
pub mod Library
mod Examples
