-- ===== src/Lib.antt =====
-- ThreadLens observes Thread networks: collectors poll OpenThread border routers (OTBR) and Matter
-- servers and listen to mDNS, write the present state of each object and the transition events into
-- a repository, and a health engine reads both to make one report. This library models those parts
-- and proves what they promise.
--
-- Parts, and where they are modelled:
--
-- Prelude          what the modules share: Boolean tests and lists on the native numbers,
--                  duplicate-free lists and dictionaries, character codes, formatted texts, JSON
--                  values, and Python's str, repr and int on them.
-- Config           the settings of threadlens/config.py that the modelled parts read.
-- Model            threadlens/models: health, state, events and capabilities, as records.
-- Storage          threadlens/storage/repositories.py: Storage.Table is one object type of
--                  current_state, Storage.Events the event table with queries and retention,
--                  Storage.Aggregates the aggregates and the metadata.
-- Debounce         threadlens/utils/debounce.py; Debounce.Trace follows it over many calls.
-- Ids              the hexadecimal identifiers of threadlens/utils/ids.py.
-- Health           threadlens/health: Health.Rollup is rollup.py; Health.Rules and its children are
--                  the rules of engine.py for each kind of object (Nodes, Services, Agreement);
--                  Health.Report is build_report.
-- Mdns             threadlens/collectors/mdns.py and mdns_txt.py: Mdns.Txt the ids in TXT records,
--                  Mdns.Record the records and states, Mdns.Observer the handlers as steps on the
--                  observer and its rows.
-- Otbr             threadlens/collectors/otbr_rest.py and otbr_parse.py: Otbr.Snapshot the merge and
--                  the reconciliation of the endpoints, Otbr.Classify the classification,
--                  Otbr.Collector a poll, with Reachable for a border router that answered, Cycle for
--                  the requests and all border routers, and Networks for the Thread networks and
--                  the TREL services.
--                  Otbr.Parse the reading of the JSON bodies and the device inventory, Otbr.Action the
--                  action that refreshes it.
-- Matter           the observer of a Matter server: Matter.Requests is collectors/matter_ws.py, the
--                  requests that wait for an answer; Matter.Parse is matter_parse.py; Matter.Observer
--                  and its children are matter_server.py: Node for the payloads of nodes, Handle for
--                  messages, connection and commands, Lifecycle for start, reconnection and status.
-- Probes           the read probes of Matter nodes: Probes.Scheduler is matter_probe_scheduler.py, the
--                  turns of the loop and the round robin; Probes.Planner is matter_probe_planner.py;
--                  Probes.Unsupported and Probes.Runner are matter_probes.py.
-- Network          threadlens/utils/network.py, on a parameter for Python's ipaddress.
-- Enrichment       threadlens/enrichment/thread_matter.py: Thread devices matched to Matter nodes.
-- Redaction        threadlens/report/redaction.py.
-- Server           threadlens/report/window.py, and the events of threadlens/server/summary.py.
-- Tests            the theorems at concrete inputs.
--
-- How the state corresponds. An object with attributes is a record with the fields that its methods
-- write, and a method is a function from the arguments, the time and the record to the record. The
-- handlers await only the repository, so each runs as one step. Times are microseconds as natural
-- numbers and the clock is an argument, read once for a step. A dictionary is an association list in
-- order of insertion, a set a list without repetitions, a table of current states a list in order of
-- its ids. Counts, durations and channels are natural numbers; a subtraction of a duration from the
-- clock stops at 0, where the source has an early date. Every loop runs over a list or a count; the
-- printing of a number runs on fuel, with no less than the number, which has fewer digits, and so does
-- the waiting for an action, with the seconds to the deadline and one, since a round takes two.
--
-- How the parts interact. The observer hands each message first to its requests and handles what
-- no request claims; a probe of the runner sends its commands through them and stores its outcome
-- into the observer's cache and rows; the planner reads the cached node. A request function of the
-- runner has the answer together with the observer as the other handlers have left it meanwhile, so
-- their interleaving with a probe is an argument. The correlation of Enrichment writes the same rows.
-- The task that a result of the Matter server creates is counted by the observer. What the task writes,
-- the nodes that probes store and the rows that the correlation changes, are steps of the observer.
-- The times between two sessions, floats in the source, are counted in a unit that makes them whole.
--
-- For a poll the answers of a border router are an input, each one with the body as a snapshot, an
-- unreadable body, a status or a transport error, and how the refresh of the device inventory ends,
-- which Otbr.Action models; Otbr.Parse makes the snapshots from JSON. The
-- integers of JSON are natural numbers, and small letters are made of the capitals of ASCII.
--
-- Not modelled: SQL, aiosqlite, httpx, websockets, zeroconf, ipaddress and pydantic, which the
-- source calls; the tasks of asyncio and their cancellation; the making of reports, the enrichment
-- from Home Assistant, MQTT, the rest of the web server, its dashboard and the agent.
pub mod Prelude
pub mod Config
pub mod Model
pub mod Storage
pub mod Debounce
pub mod Ids
pub mod Health
pub mod Mdns
pub mod Otbr
pub mod Network
pub mod Matter
pub mod Probes
pub mod Enrichment
pub mod Redaction
pub mod Server
pub mod Tests
