-- ===== src/Lib.antt =====
-- SkyTurn: the turnaround service (services/turnaround-service), which turns the arrival of a flight
-- into a list of ground tasks, follows them to the departure, and tells the other services; and what
-- the dashboard (services/dashboard) decides in the browser.
--
-- Common holds what the parts share: Boolean tests, lists, integers, sorting, and JavaScript's `parseInt` and
-- `String(n)` on whole numbers (Number). Under Turnaround:
--   Schema, Dto: the documents and the request bodies (turnaround/schemas, turnaround/dto). A request
--     that leaves a field out has `none`; the milestones of a request are the entries of the object
--     in the order of `Object.entries`.
--   Templates: templates/aircraft-templates.ts, the inherited members of the table object included.
--   Store, Repository: turnaround/turnaround.repository.ts. The document store is the parameter
--     `Mongo`; `IsMongo` says what its calls do to the collection of turnarounds. A call may answer,
--     be refused, or take effect and lose its reply. "The store answers" says of a call that it is
--     not refused, as it is for an id or a date that Mongoose cannot cast, and that its reply arrives. Store/Memory is a store that meets `IsMongo`.
--   World: the state of a run (the collection, the cached weather, the messages at the broker, a
--     counter of external calls) and `Action`, a function of that state into a value or an error.
--     The clock, the uuids, the replies of the ingestion service and of the broker and the parser of
--     dates are parameters (`Env`), read by the number of the call, so nothing is assumed of them.
--   Weather: weather/weather.service.ts. Temperatures are in tenths of a degree.
--   Event, Publisher: events/turnaround-event.publisher.ts.
--   Tasks, Service: turnaround/turnaround.service.ts; Tasks has its pure parts. `createTurnaround` is
--     create_turnaround, and likewise for the other methods. Store failures pass through them.
--   Controller: turnaround/turnaround.controller.ts, from the pairs of the query on.
--   Config: config/configuration.ts.
--   Concurrent: `updateTask` again, cut at its `await`s into pieces, and runs of several requests: a
--     schedule says whose piece is next, and `run` takes them in that order. Concurrent/Milestones
--     cuts `updateMilestones` between its validation and its update.
--   Calls: the same for `createTurnaround`, `updateTask` and `updateMilestones` together. A Process is
--     a call where it waits, and a run takes calls of every kind. Calls/Effect says what one piece may
--     do to the collection; Calls/Guarantee relates every piece to that, and has what a call relies on
--     while others run.
--   Consumers: events/flight-event.consumer.ts, crew-event.consumer.ts, equipment-event.consumer.ts.
--   Tests: runs on the store in memory.
-- Under Dashboard, of the pages in the browser (services/dashboard/src):
--   Types: types/auth.ts, types/equipment.ts.
--   Api: lib/api.ts, with `fetch` as a parameter; Api/Login: routes/LoginPage.tsx upon it.
--   Queries: hooks, each with its key, address and interval; Queries/Refresh has them against the
--     events of the stream, Queries/Listing on their way to the service's store.
--   Auth: contexts/AuthContext.tsx and lib/auth.ts, as a session and the events that change it. The
--     clock, the parser of a token and the replies of the server are parameters.
--   Stream: contexts/SSEContext.tsx, as a state machine; its sources and timers are in the state, so
--     a run is a list of what happens to them, in any order.
--   Routes: App.tsx, with the form in which the router compares paths as a parameter, routes/ProtectedRoute.tsx, components/layout/Sidebar.tsx.
--   View: components/ui/StatusBadge.tsx, KpiCard.tsx, and what every page puts where a list belongs. What
--     a page shows is a record of the texts, colours and numbers in its cells.
--   Equipment: routes/EquipmentPage.tsx. StandPlan: routes/StandPlanPage.tsx, its chart in
--     StandPlan/Chart, its rows in StandPlan/Board. Crew: routes/CrewPage.tsx. Settings: routes/SettingsPage.tsx, its panels as
--     state machines. Weather: components/WeatherWidget.tsx. Pages: routes/FlightsPage.tsx,
--     routes/EventsPage.tsx, routes/TurnaroundsPage.tsx, components/layout/TopBar.tsx.
--   Format: lib/utils.ts, lib/constants.ts. Overview: routes/OverviewPage.tsx.
--   Tests: concrete sessions, streams and pages.
-- The dashboard and the service share no state; they meet at the HTTP interface.
--
-- In Service an action runs to its end before the next begins; in Concurrent and Calls the pieces of
-- several calls interleave. A publish is one piece, and so is a question to the weather service,
-- since neither touches a document. Minutes
-- and percentages are natural numbers; the products and shares that the service forms of its
-- templates round to the numbers that the doubles of the source round to. Shares of a chart and
-- degrees of the wind are scaled to whole numbers. Printing a number has fuel, one more than the
-- number, which is enough since each step divides it by ten; every other loop is structural.
--
-- Not modelled: the wiring of the modules, logging, the health check, the markup of the dashboard and
-- the browser's formatting of dates, and the other services, which are written in other languages.
pub mod Common
pub mod Dashboard
pub mod Turnaround
