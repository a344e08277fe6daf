-- ===== src/Lib.antt =====
-- The frontend of the microservices banking application, frontend/src: the library that the pages
-- call (frontend/src/lib), the guard of the pages, the forms of the movements of money, and the
-- server-side routes behind them (frontend/src/app/api). And the program that drives those routes
-- with simulated users, simulation-client/src.
--
-- The parts, and how they work together. A page stands under the provider of the session, and is
-- shown or not by a guard. It calls the API classes, and they call one client, whose interceptors
-- add the token of the cookie to each request and end the session on a 401. The provider talks to
-- the server through an HTTP instance of its own. On the server, one route handler for each
-- address hands the request on to the gateway by `fetch`.
--
--   Web               the page as a state `World`: its cookies, its address, the console, the HTTP
--                     library; every operation takes a world and returns one
--   Token             lib/auth/token.ts, `TokenManager`; Decode is `decodeToken`, with the encoding
--                     that it is held against in its children Base64 and Escapes
--   Client            lib/api/client.ts, `ApiClient`: `on_request` and `on_error` are the
--                     interceptors, `get` to `patch` the verbs; Errors is `handleError`, Calls the
--                     five verbs as one type
--   AuthApi           lib/api/auth.ts, `AuthAPI`
--   Session           lib/auth/context.tsx, `AuthProvider`; Steps is the provider over time,
--                     Unauthorized a provider and a client in turn, Interleaved a provider from
--                     its mounting on, whose requests wait for their replies while other things
--                     happen
--   Guard             components/auth/ProtectedRoute.tsx; Readers puts it under a provider
--   AccountsApi, TransactionsApi, UsersApi
--                     lib/api/accounts.ts, lib/api/transactions.ts, lib/api/users.ts
--   Proxy             app/api: Accounts, Transactions, Users and Assistant hold one definition for
--                     each handler; Routes has the handlers of the gateway as one function, and the
--                     table that describes them
--   Validation        lib/utils/validation.ts, `validationUtils`; Schemas has the schemas of the
--                     forms, and its child Reader the library that reads them
--   ApiUtils          lib/api/index.ts, `ApiUtils`; Tables is `API_ENDPOINTS`
--   Toasts            components/ui/ToastContainer.tsx, `useToasts`; Timers is
--                     components/ui/Toast.tsx
--   Forms             app/accounts/[id]: the pages deposit, withdraw and transfer, `handleSubmit` and
--                     `fetchAccountDetails`; View is what they render
--   Pages             what the other pages fetch and render: Transactions is app/transactions,
--                     Accounts app/accounts, Details app/accounts/[id], Dashboard app/dashboard,
--                     Assistant app/ai-assistant, Navigation app/page.tsx and
--                     components/layout/Header.tsx
--   Logging           lib/logger.ts and middleware.ts
--   Tracing           instrumentation.ts: `resourceAttribute` and `register`
--   SignIn            components/auth/LoginForm.tsx and components/auth/RegisterForm.tsx: `onSubmit`,
--                     on the pages app/login and app/register
--   Prelude           truth tests, texts, JSON values and search parameters
--   Samples           a page and a server with concrete values, for the tests
-- (lib, components and app are folders of frontend/src.)
--
-- The simulation client keeps a number of sessions running, each of which logs a user in and lets
-- it look at accounts, move money and, now and then, make a request that is meant to fail. A
-- manager lets the number of sessions drift, starts sessions, counts how they end, and stops.
--
--   Simulation/Actions    requests, waits, draws and readings of the clock; an action takes a state
--                         to a value or an exception, with the state after it
--   Simulation/Numbers    floating-point numbers
--   Simulation/Settings   config/index.js
--   Simulation/Client     client/ApiClient.js: `retry_request` and one definition for each
--                         operation; Endpoints has the operations as one type
--   Simulation/Personas   models/personas.js, with its tables in Tables
--   Simulation/Users      models/User.js
--   Simulation/Workflow   workflows/UserWorkflow.js: the sessions; Steps, Accounts, Movements and
--                         Faults hold what they are put together from
--   Simulation/Manager    workflows/SimulationManager.js; Steps is the manager with its sessions
--                         over time, Waiting the wait for them at the end
--   Simulation/Startup    index.js
--   Simulation/Samples    numbers, settings and a world with concrete values, for the tests
-- (client, config, models, workflows and index.js are in simulation-client/src.)
--
-- What is a parameter. The HTTP library is `World.network`, any function of the position and the
-- content of a request; js-cookie is `Cookies`, with what it documents in `CookieLaws`;
-- `JSON.parse`, `String` and dates are `Platform`; `fetch`, `Response.json` and the random digits
-- are `Server`, with what the platform documents of `Response.json` in `RespondLaws`. Numbers in
-- JSON are decimals that the frontend compares and passes on; what its forms make of a text is
-- `Forms.Language`. How the pages write numbers, moments and texts, and what they add up, is
-- `Pages.Display`; the library of the schemas is `Zod`, with what it documents in `ZodLaws`. The
-- packages of OpenTelemetry are left out of `register`, whose result is what they are given. The
-- simulation client calculates: its numbers are `Numbers`, with what the language documents of
-- comparing and rounding them in `NumberLaws`; its environment is `Env`, and what the language
-- makes of replies of a type that it does not expect is `Workflow.Steps.Language`. Its requests,
-- draws and readings of the clock are functions of their position in `World`.
--
-- Bounds. The decimal digits of a number are printed in as many rounds as the number and one more,
-- and each round divides by ten. The search for a draw that is not zero has fuel, and the theorem
-- about it says how much is enough where the draws do not stay zero; so has the wait at the end,
-- which 31 tests bound. All other loops are structural, the retries on those that are left.
--
-- Simplifications. In Session.Steps an operation of the provider runs to its end before the next one
-- begins, and the timer that refreshes the session is a step that may come at any time. In
-- Session.Interleaved, which begins when the provider is mounted, everything may come between a request
-- and its reply; there a login or a registration begins only while the provider is not loading, since
-- its form is under a guard, and the timer refreshes only while somebody is authenticated. Time does
-- not pass within an operation. A provider runs in a browser, so that `window` is there when it logs
-- out. A page fetches its data in one step. A rendering is the values that it shows, and `none` where
-- it throws; styles, icons and fixed texts are left out but for those that depend on data, and the name
-- in the head of a page is taken to be no object. The form of a login or registration that is sent
-- loses its place on the page while the provider is loading, as its guard makes it. Time stamps,
-- durations and stacks are left out of log lines where they are kept in the world, and so are the
-- console lines of the routes. In the simulation, a method of the manager runs to its end before the
-- next one begins, and so does a session as it sees its own state; what other sessions draw, send and
-- wait for in between is a step of its own. Negative whole numbers in its environment are not modelled,
-- and of its log lines only the exceptions that they may throw. The identity of an account in the
-- address of a form is a number.
--
-- Not modelled: the widgets and the shells of the pages profile, login and register, which render
-- what they are given; the tables of status codes and texts of lib/api/index.ts, which nothing reads;
-- the test spans and the shutdown of the tracing; the health check, which is a constant; the tracing
-- and logging of the simulation client, and the report of its manager's metrics; and the services
-- behind the gateway, which are other programs.
pub mod Prelude
pub mod Web
pub mod Token
pub mod Client
pub mod AuthApi
pub mod Session
pub mod Guard
pub mod Proxy
pub mod AccountsApi
pub mod TransactionsApi
pub mod UsersApi
pub mod ApiUtils
pub mod Toasts
pub mod Validation
pub mod Forms
pub mod Pages
pub mod Logging
pub mod Tracing
pub mod SignIn
pub mod Simulation
pub mod Samples
