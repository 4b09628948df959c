-- ===== src/Lib.antt =====
-- The workflow service of pz-workflow: event types, events, triggers and alerts in Elasticsearch
-- indices, the jobs that events fire through triggers, and events that are posted by a schedule.
--
-- The parts and their files:
--
-- Json, Model: JSON values, the documents, and the statistics (workflow/common.go). A Go map is a
-- list of keys and values in one fixed order; the order of the goroutines and of their results in
-- PostEvent is left open. Elsewhere the loops over a map take the list's order, which is one that
-- Go may take: it decides which of several errors is reported, and in which order values are put
-- into a job's text.
--
-- Texts: the functions of Go's strings package that are used. replace_all runs on fuel, one round
-- for each character of the text and one more, which its callers give; every round but the last
-- takes a character.
--
-- Backend: what the libraries and other services do (Elasticsearch, RabbitMQ, the scheduler, the
-- other Piazza services, JSON coding, identifiers, the clock) as one record of functions, each of
-- which may answer anything, depending on the number of calls and on the changes requested before.
--
-- Exec: how methods run: they ask, request changes, count statistics, return early, and may panic.
-- A method recovers (Service.handlePanic) and its response is then nil; a goroutine does not
-- recover. Exec.Keeps, Exec.Steady, Exec.Ticks, Exec.Returns, Exec.Wrote, Exec.Ran and Exec.Once
-- are the rules for what a run leaves alone, what it counts, what its result is like, and how a run
-- that requested something, or returned, came about.
--
-- Db.*: the files workflow/*DB.go: Db.EventTypes, Db.Events (with Db.Events.Verify and
-- Db.Events.Schema), Db.Triggers (with Db.Conditions for the keys of conditions), Db.Alerts,
-- Db.Crons, and Db.Hits for what they share. A function has the name of the Go method, in snake
-- case. Db.Reading, Db.Uncounted and Db.Touching say what operations leave as it is;
-- Service.Reading, Service.Listing and Service.Touching do so for methods, and Service.Replies and
-- Service.Ticking say what methods answer and count. Db.Shelf is the abstract view of EventTypeDB,
-- a map from identifiers to event types, computed from the requests; it is of an index that works.
--
-- Response, Unique, Service.*: workflow/Service.go: Service.Lookup, Service.EventTypes,
-- Service.Events, Service.Triggers, Service.Alerts, Service.Jobs (the goroutine of PostEvent and
-- the message to the queue), Service.Cron (InitCron and a scheduled job), Service.Stats, and
-- Service.Startup (Init). The goroutines of PostEvent run to their ends one after the other, in an
-- order that the backend chooses.
--
-- Server: workflow/Server.go: the table of routes, and a handler for each. Server.Serving is the
-- service after its start: requests and scheduled jobs, each run to its end, one after the other in
-- any order. Server.Touching and Server.Counted have the counters that handlers change, and
-- Server.Replies the shapes of their responses, with Response.WellFormed and, for the table of data
-- types of workflow/common.go, Response.DataTypes.
--
-- Kit: workflow/Kit.go: how the service is put together, started and stopped. Kit.Scripts has the
-- names of the scripts that make an index, Kit.Scripts.Runs their loop (makeIndices), where an
-- error is log.Fatal and ends the process, and Kit.Scripts.Indices makeIndices for all six keys,
-- whose map is taken in one of its orders; Kit.Starting has the ends of Stop. PollFunction, the
-- calls of the generic server, and those on scripts and indices are arguments of the definitions in
-- Service.Startup and Kit; what the calls on scripts answer does not depend on the calls before
-- them. An index that is not in the map is nil, and its creation panics.
--
-- Main: main.go, over the library's calls for the clients and for the server, whose start and whose
-- channel Kit.Start and Kit.Wait pass on.
--
-- Client: workflow/Client.go: each method builds a path, sends one request and takes the response
-- apart. Client.Calls has the HTTP library as a parameter, whose answer may depend on all requests
-- before; Client.Extracted and Client.Answers say what a response comes to, null included,
-- Client.Methods lists the methods with the routes that they mean, and Client.Routes compares what
-- they send with the table of routes; Client.Unrouted has the methods without one, and
-- Client.Served takes the client and the server together.
--
-- Tools: tools/main.go, the tool that deletes all objects: Tools.Rounds has the pages that its
-- rounds of ten goroutines visit, Tools.Waiting the goroutines of a round and their wait group as a
-- step relation, and Tools.Pages the requests for a page; Tools.Cleaning has the four goroutines of
-- main, by their steps, and Tools.Starting makeClient, with NewClient of workflow/Client.go. A loop
-- that never returns is none; its fuel is the number of pages and one more, and each round takes
-- ten pages. The number of pages is computed exactly, as the source's floating-point division does
-- for counts below 2 ^ 53. Numbers of objects are not negative.
--
-- Tests: a small backend and a small HTTP server, and runs of the theorems at examples.
--
-- Not modelled: the scripts in db/ themselves, log messages, the lost updates of Stats.incrCounter
-- (its increment is one step here, while concurrent handlers and jobs share the counter without a
-- lock), the data race on the map of results in PostEvent, the one on the error of a round in the
-- clean-up tool, and the panic where the answer of the service controller cannot be closed
-- (TriggerDB.PostData). Numbers in JSON are kept as they are printed; counters wrap at 64 bits.
pub mod Prelude
pub mod Texts
pub mod Json
pub mod Model
pub mod Backend
pub mod Exec
pub mod Db
pub mod Response
pub mod Unique
pub mod Service
pub mod Server
pub mod Client
pub mod Kit
pub mod Main
pub mod Tools
pub mod Tests
