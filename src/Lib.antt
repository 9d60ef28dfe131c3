-- ===== src/Lib.antt =====
-- The web interface of SocBlitz, frontend/src: the API client and the pages built on it.
--
-- The program. The pages are React components. A handler of a page changes the page's state and asks
-- the libraries for effects: a call of the API, a change of the query cache, a toast, navigation. The
-- answer of the server arrives later and runs another handler. All calls go through one client,
-- frontend/src/stores/auth.ts, which adds the token of the signed-in user to each request and signs
-- the user out when a request is refused with the status 401.
--
-- The model. A page is a record of its `useState` variables. A handler is a function from the state to
-- the new state and the list of its effects, in the order of the source (Ui.Effect). Where events
-- may come in any order, the handlers are the clauses of one function `act` on a type Event, whose
-- constructors are the inputs of the page and the answers of the server, and `run` takes a page
-- through a sequence of events. A button that is disabled or not shown does nothing. What a page
-- reads from the query cache is an argument of the handler that reads it, so that it may change
-- between any two events. Numbers are natural numbers, which the modelled code neither rounds nor
-- exceeds; the quotients of Posture and of the heat map of Widget are kept as fractions, and the two
-- percentages and ages that the source rounds are rounded in whole numbers. Texts are native strings; an
-- address and a key that is compared as a whole are lists of code points. Where a control is disabled
-- while an answer is awaited, the flag that disables it also says that the answer may come.
--
-- Which file models which part:
--   Common     the operations of JavaScript on texts, lists and numbers that the pages use: `trim`,
--              `includes`, `startsWith`, `filter`, `find`, JSON values and `JSON.stringify`
--   Api        frontend/src/stores/auth.ts: Api/Account to Api/Intel are the helpers of the object
--              `api` and their requests, Api/Calls all of them, Api/Store the store of the user,
--              Api/Client the interceptors
--   Session    what the interceptors do to the calls of the client, a browser in which the sign-in page,
--              the frame and the interceptor share the store (Session/Browser), and what the answers to
--              updates refresh on other pages (Session/Refresh); whether keys of queries fit is a parameter
--   Ui         the effects, what a page gives `useQuery`, and the lines of a table (Ui/Table)
--   Login      frontend/src/pages/Login.tsx: `handleLogin` and `handleMfaVerify` are each split at
--              their `await`
--   TimeRange  frontend/src/components/TimeRangeFilter.tsx; the clock and the conversion of dates are
--              parameters
--   SearchBox  the debounced query box of frontend/src/pages/Alerts.tsx and Events.tsx
--   Events     frontend/src/pages/Events.tsx
--   CustomDashboard  frontend/src/pages/CustomDashboard.tsx; `render` is one render with both effects
--   CaseDetail frontend/src/pages/CaseDetail.tsx: a child for each tab that keeps state of its own
--   Workflow   frontend/src/pages/WorkflowBuilder.tsx
--   AccountSecurity  frontend/src/pages/AccountSecurity.tsx: each asynchronous handler is split at its
--              `await`
--   Alerts     frontend/src/pages/Alerts.tsx
--   Cases      frontend/src/pages/Cases.tsx
--   DarkWeb    frontend/src/pages/DarkWeb.tsx
--   Posture    frontend/src/pages/Dashboard.tsx: `getThreatLevel`, and in Posture/Overview the figures
--   Widget     frontend/src/components/DashboardWidget.tsx
--   App        the guard of frontend/src/App.tsx, in App/Routes its table of routes; which route fits an
--              address is decided by React Router, and is a parameter
--   Layout     frontend/src/layouts/DashboardLayout.tsx
--   Engine     frontend/src/pages/SocBlitzEngine.tsx: a child for each tab, Engine/Clean for the lists
--              that the tabs read out of texts; `Number` and `JSON.stringify` are parameters
--   Agents     frontend/src/pages/Agents.tsx
--   ThreatIntel  frontend/src/pages/ThreatIntel.tsx
--   Forensics  frontend/src/pages/Forensics.tsx; the clock is an argument
--   Settings   frontend/src/pages/Settings.tsx; the role of the user is an argument
--   Soar       frontend/src/pages/SettingsSOAR.tsx
--   AlertDetail  frontend/src/pages/AlertDetail.tsx and EventDetail.tsx
--   Connectors frontend/src/pages/Connectors.tsx and frontend/src/lib/connectors.ts
--   Server     the endpoints of backend/app/api/v1/router.py for signing in and the second factor
--              (Server/Mfa), the tokens of backend/app/core/auth.py and the user that one stands for
--              (Server/Tokens), the update of a case (Server/UpdateCase), the endpoints for
--              administrators (Server/Roles), and the walk through a workflow of
--              backend/app/services/workflow_engine.py (Server/Walk); what python-jose, pyotp, the
--              normalization of codes and the executors of the nodes do are parameters, and so is the
--              moment of a call
--   View       in Alerts, Cases, Events, DarkWeb, Forensics, Posture and ThreatIntel: what the page shows
--   Examples   the theorems at concrete inputs, and tests of the definitions
--
-- Loops and fuel. Nearly every loop is structural recursion on a list. The numeral of a number
-- (Common/Stringify.decimal) recurs on fuel, which is the number plus one and so larger than the
-- count of its digits (Common/Decimal). App/Routes.follow is given the number of routes that may be
-- visited, and Server/Walk.walk one more than the number of edges, by which each round of the loop uses up
-- an edge or a waiting node (Server/Walk/Bounds).
--
-- Not modelled: the markup and its styles, the charts, the libraries React, React Query, axios,
-- zustand and React Flow beyond what the pages ask of them, the detection engine and the agent, and the
-- server but for the endpoints named above. The order in which answers arrive is left open; whether
-- a mutation is under way is an argument is_pending of the handlers that ask for it.
pub mod Common
pub mod Api
pub mod Server
pub mod Session
pub mod App
pub mod Ui
pub mod Login
pub mod AccountSecurity
pub mod TimeRange
pub mod SearchBox
pub mod Alerts
pub mod Layout
pub mod Soar
pub mod AlertDetail
pub mod Connectors
pub mod Widget
pub mod Agents
pub mod ThreatIntel
pub mod Forensics
pub mod Settings
pub mod Engine
pub mod Events
pub mod Posture
pub mod CustomDashboard
pub mod Cases
pub mod DarkWeb
pub mod CaseDetail
pub mod Workflow
pub mod Examples
