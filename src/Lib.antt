-- ===== src/Lib.antt =====
-- HoneyCow: an authoritative DNS server that answers every query for every name with synthesized
-- records pointing at itself, and the limits that keep it from amplifying for an attacker.
--
-- The program's parts and the files that model them:
--   squatter/budget.py, the byte budget over a rolling window: Budget and below. A method takes the
--     second at which it reads the clock and returns the new state.
--   honey_ns.py, class TokenBucketRateLimiter: RateLimiter and below. Times are nanoseconds and
--     tokens are counted in units of 10^-12; the float rounding of the source is not modelled.
--   squatter/exemptions.py and squatter/source_exemptions.py, the two hot-reloaded lists: Exemptions
--     and SourceExemptions and below. Reading a file is an argument, `load` returns the new list.
--   squatter/base.py, record synthesis, response shells and serialization: Base and below. Its
--     environment variables are the record Identity; Base/Config parses the two with a structure.
--   squatter/dispatch.py, the decision tree: Dispatch and below. One function stands for each branch
--     and `dispatch` composes them as the source does; the handler names are the type Handler.
--   honey_ns.py, _wire_header to handle_wire: Wire and below. The module's globals are the record
--     Site, and what handle_wire returns is the record Handled; log output is left out.
--   honey_ns.py, UDPProtocol.datagram_received: Udp and below. A datagram takes the limiter and the
--     budget to an Outcome, with what is sent, the event that is logged, and an escaping exception.
--   honey_ns.py, handle_tcp: Tcp and below. What the reader and the writer do in a round is the
--     record Round; the loop recurs on the rounds that are left, max(1, max_queries_per_conn).
--   honey_http.py, the HTTP closer: Http and below. Page renders the response, Closer has the handler.
--   tools/honeycow_digest.py: Digest and below. Classify has the classifiers, Sources the address
--     lists, Window and Slots summarize_window, Hourly iter_hourly_digests and Merge merge_digests.
--     An event is a record of the JSON keys that the tool reads, a counter a list of entries (Dict).
--     Measures names the numbers that its laws are about: the totals, the counts of families, paths,
--     user agents, ports, exempt sources and inbound responses, the counts and counters of each source,
--     and of each research scanner its hits, refused queries and sources; the names that a scanner asked
--     for, the exemplars and the times of a source are not among them.
--   honey_ns.py, serve and the SIGHUP handler: Serve and below. A server takes steps: a connection
--     arrives or ends, or a signal has the two lists read again.
--   tools/ingest_ns.py, the index of the nameservers' query logs: IngestNs and below. The tables are
--     lists of rows; matching, the file system and DuckDB's reading of a CSV line are parameters.
--   tools/dashboard.py: Dashboard has cluster_by_paths, with the float quotient as a parameter, and
--     Dashboard/Grade has grade_day, with exact quotients and a line of text as a datum.
--   tools/ingest.py, the SQLite index of the events: Ingest and below. A table is a list of rows and
--     an insertion passes a row whose hash is there; batches have 5000 rows as in the source.
--   tools/annotate.py, the notes on the graded days: Annotate and below. The notes directory is a
--     dictionary from dates to texts; gathering evidence and asking the service are one parameter.
-- dispatch consults both lists and builds its responses with base; the listeners call it through
-- handle_wire and charge the budget and the limiter for what they send.
--
-- dnspython is the record DnsPython of Dns, a parameter; Dns/Laws states the documented behaviour
-- that the theorems use, and Tests/Toy has a small instance that meets it. make_response is modelled
-- for queries without QR, which are all that honey_ns.py passes it; a text that is no address makes a
-- synthesizer raise. The parsers of ipaddress are parameters too. The only fuel is that of the TXT
-- slices (one round for each byte, which suffices since each round takes at least one).
--
-- Not modelled: sockets, the event loop and the lock (each method is one step), log text, reading
-- the environment, the tools under tools/ but the digest, the two indices, the clusters and the
-- grades of the dashboard and the annotator without its SQL, and the header fields, ids, addresses
-- and times of an event.
pub mod Prelude
pub mod Budget
pub mod RateLimiter
pub mod Dict
pub mod Dns
pub mod Exemptions
pub mod SourceExemptions
pub mod Ip
pub mod Base
pub mod Dispatch
pub mod Wire
pub mod Udp
pub mod Serve
pub mod Tcp
pub mod Http
pub mod Ingest
pub mod IngestNs
pub mod Annotate
pub mod Dashboard
pub mod Digest
pub mod Tests
