-- ===== src/Lib.antt =====
-- The scheduler of EdgeSched: an HTTP server that sends images to inference engines. It keeps,
-- for each engine, a pool of workers behind a bounded queue; a health monitor asks every engine
-- in turn; a system monitor reads the board's temperature and load; and a routing policy picks
-- the engine of a request from the three. The files model the Go code of scheduler/internal and
-- scheduler/cmd.
--
-- Json: JSON values, and what json.Encoder and json.Unmarshal do with structs, for the bodies
-- between scheduler/internal/api/handlers.go and the two clients. Printing, parsing and the
-- tokens of numbers are the parameter Codec of Json/Value, with its hypothesis IsCodec. Texts has
-- lemmas on what is encoded.
--
-- Prelude: the shared types and lemmas. The ints of Go are ℕ where the code keeps them from being
-- negative and else the ℤ of Prelude/Int; int64 and uint64 wrap-around is written out. Strings
-- are lists of bytes (Prelude/Bytes). Prelude/Maps has Go's maps with string keys as lists of
-- pairs, Prelude/Sort the sort by a string key, Prelude/Split the cutting at a byte,
-- Prelude/Decimal Itoa and Atoi, Prelude/Regexp the greedy matching of regular expressions, and
-- Prelude/Results the results of calls that may fail or panic. float64, float32 and ParseFloat
-- are the parameter Prelude/Floats, with the laws of IEEE 754 as its hypothesis IsIeee.
--
-- Routing: scheduler/internal/routing/policy.go. Pick has EngineState, filterHealthy and
-- tieBreaker (pick); Policy has LeastQueuePolicy and ThermalAwarePolicy as the two kinds of one
-- type, with SelectEngine as select_engine and filterToCheapTier. Sound, Candidates, Thermal,
-- Order, Windows and RoundRobin have the proofs.
--
-- Workerpool: scheduler/internal/workerpool/pool.go. Pool has New, Submit, QueueDepth, Close and
-- the rounds of worker, as functions on a pool: a queue, a capacity and a list of workers, each
-- of which runs, waits, predicts, sends its result or has returned. Trace has the steps that
-- workers and callers take in any order. Invariant, Submit and Drain have the proofs.
--
-- Healthcheck: scheduler/internal/healthcheck/monitor.go. Monitor has New, check, Healthy and
-- Snapshot; Polling has Run and pollLoop as steps of the loops, with any replies in any order.
-- Status has the proofs.
--
-- Sysmonitor: scheduler/internal/sysmonitor/monitor.go. Parse has parseTegrastatsLine and
-- parseNvpmodelOutput on bytes; Monitor has Current, applyTegrastatsLine and pollNvpmodel, and
-- the loads and stores of the shared pointer as steps of their own; Loops has Run, runTegrastats
-- and runNvpmodel as steps of the goroutines, with what the two commands do as the environment.
-- Merge, Temps, Ram, Explained, Supervision, Unstarted and Shown have the proofs. Debug has the
-- command of scheduler/cmd/sysmonitor_debug/main.go, with the monitor that it runs.
--
-- Api: scheduler/internal/api/handlers.go. Wire has the JSON bodies, Params and Escape how the
-- handlers read their parameters, Budget parseLatencyBudget, Server the Server with its metrics
-- and engineStates. Predict, Handler and Answer have HandlePredict as the phases route,
-- read_body, admit and answer; between two of them other goroutines may do anything to the
-- server, which is the parameter Others. Overview has HandleStatus and HandleHealth, and Answer
-- HandleLastResult. Bodies has the bytes of the replies. Codes, Effects, Counted, Latest, Image,
-- Named, Route and Hot have the proofs; Hot goes from a line of tegrastats to the engine of a
-- request.
--
-- Serving: the requests in HandlePredict and the workers of their pool together
-- (scheduler/internal/api/handlers.go, from the making of the channel on, and
-- scheduler/internal/workerpool/pool.go). System has their steps in any interleaving: a caller
-- submits and waits in its select, a worker's send needs room in the caller's channel, and a
-- context may end at any time. Known, Counts, Told, Replies, Work and Progress have the proofs.
--
-- Engineclient: scheduler/internal/engineclient/client.go. Client has New, Close, HealthCheck and
-- Predict with their errors, and what a worker makes of a call; what a call of gRPC returns is an
-- argument. Reached and Forward have the proofs on what a handler makes of it.
--
-- Collector: scheduler/internal/metrics/metrics.go. describe and collect are Describe and
-- Collect, as the lists of what they send, and Registry has the metrics of New. Gather has the
-- proofs.
--
-- Command: scheduler/cmd/scheduler/main.go. Engines has parseEngines and buildPolicy, and Wiring
-- what main builds from its flags. Mux has the routes and a request from the mux to its handler.
-- Listing and Served have the proofs.
--
-- Loadgen: scheduler/cmd/loadgen/main.go. Main has the checks of main and its warm-up, with what
-- the walk gives, Send has findImages, sendOne and the rows of writeCSV, Feed the goroutines of
-- main as steps in any interleaving, Tally the counting of the results, Latency percentile and
-- the latencies of the summary, Summary the summary, Url buildPredictURL, and Decode the decoding
-- of a reply. Outcome, Fed, Held, Once, Ends, Ascending, Percentiles, Codes, Report, Joined,
-- Asked, Parsed, Agreed and Answered have the proofs. Multiplication and int(x) on floats are the
-- parameter Scaling of Prelude/Floats, with the laws of IEEE 754 that percentile relies on as its
-- hypothesis IsScaling.
--
-- Statscraper: scheduler/cmd/statscraper/main.go, the rows of its table. Decode has the poll with
-- its decoding, and Stops the loop of main. Scraped, Page, Cells and Polled have the proofs on
-- what it reads of the status page.
--
-- The parts meet in Api, Serving and Command, and the commands meet Api in Loadgen/Asked,
-- Loadgen/Agreed, Loadgen/Answered and Statscraper/Polled, by the URL and by the bodies: a server
-- holds the monitors, the policy and the pools, engine_states reads the pools' depths and the
-- engines' health for select_engine, admit is submit on the pool it chose, and start_up builds
-- the server that the handlers start from.
--
-- Bounds: find_all_from of Prelude/Regexp has the length of the text as fuel, which is enough
-- since each match takes a byte; digits of Prelude/Decimal has n + 1 for a number n. Other
-- recursion is structural.
--
-- Not modelled: time, but as values that are handed in; logging; the network, gRPC, the
-- Prometheus client and the syntax of JSON; the commands tegrastats and nvpmodel, which may print
-- or do anything; the parsing of flags and printing; the redirection of paths that are not clean;
-- the dashboard, the inference engine in C++, the model scripts in Python and the generated
-- protocol code. Which waiting worker receives a request is left to the runtime, and the model
-- takes the first, since workers carry no identity.
pub mod Prelude
pub mod Json
pub mod Sysmonitor
pub mod Routing
pub mod Healthcheck
pub mod Workerpool
pub mod Api
pub mod Serving
pub mod Engineclient
pub mod Command
pub mod Collector
pub mod Loadgen
pub mod Statscraper
mod Examples
