-- ===== src/Lib.antt =====
-- LightIPAM: the scanning side of the IPAM server, from the job that an operator or a schedule asks
-- for to the records that a scan's findings become.
--
-- The program. The server enqueues a scan job for a registered agent
-- (internal/scanner/orchestrator), which validates it again (internal/scanner/protocol.go), runs
-- nmap and the enrichment sources (internal/scanner/agent) and returns observations. The server
-- records them in a review queue, compares them with the managed records and, for trusted agents,
-- imports them (internal/store/discoveries.go). Schedules fire in windows, logins are throttled.
--
-- The files.
--   Protocol: internal/scanner/protocol.go. The types of the wire; Protocol/Validate.antt has the
--     checks `ValidateJob`, `ValidateAgentScope`, `ValidateJobForAgent` and their helpers, with an
--     error for each message. Within, Targets and Scope have the laws.
--   Combined: internal/scanner/agent/combined.go. Merge has `mergeObservations`, `unionHosts` and
--     `hostTargets`, Notices `noticeCollector`, Pipeline `Discover`, `enrich`, `enrichHost` and
--     `runPass`. MergeLaws, Services, Hosts, Notices/Order and
--     Fallback have the laws.
--   Inventory: internal/store/discoveries.go. The tables are lists of rows; Queue has
--     `UpsertDiscovery`, `reconcileDiscovery`, `GetDiscovery` and `DismissDiscovery`, Import has
--     `ImportDiscovery`, `SyncImportedDiscovery` and their helpers. Keys, Marks, Reconcile,
--     Review, Imported, Linked, Synced and Reachable have the laws.
--   Names: internal/scanner/agent/names.go. Dns has `skipName`, `readDNSName` and `appendDNSName`,
--     Netbios and Mdns the two protocols, Lookup `Discover` with `parseScopePrefixes` and `withinScope`
--     of snmp.go. DnsLaws, ReadLaws, RoundTrip, ReplyLaws, LookupLaws and Accounting have the laws.
--   Dhcp: internal/scanner/agent/dhcp.go. `parseDnsmasqLeases`; Isc has `parseISCLeases`, Discover
--     `parseLeases` and `Discover`. Book, Lines, Finished, Blocks and Active have the laws.
--   Nmap: internal/scanner/agent/nmap.go. The pin of the source and `planEgress`; Args has the two
--     command lines, Xml the reading of the result, Discover `Discover`, `discoverSet` and `runNmap`.
--     Adjacency and Egress have the laws of the plan, Source, Stages and Found those of the result.
--   Links: internal/store/device_links.go. The rules, `LinkDevices`, `UnlinkDevice` and
--     `DismissDeviceLinkSuggestion`; Suggest has `ListDeviceLinkSuggestions`,
--     `AutoLinkDeviceBySerial` and `ListLinkedDevices`. Groups, Joined, Steps, Merge and Guards have
--     the laws.
--   Orchestrator: internal/scanner/orchestrator/orchestrator.go. `enqueue`, `dispatch` and
--     `headlineError`; Record has `recordDiscoveries`, `maybeAutoImport` and `syncImported`, AutoLink
--     `autoLinkBySerial` on the tables of Links, Schedules `RunDueSchedules`, Lifecycle `run` and
--     Agents `DiscoverAgent`, with the statements of internal/store/scans.go that they use. Enqueue, Review, Trust, Headline, Schedules/Waits,
--     Interleaving, Runs and Enrollment have the laws, which join it to the parts above.
--   Window: internal/scanner/orchestrator/windows.go. Lockout: internal/app/lockout.go,
--     internal/store/login_attempts.go and the throttle of `loginSubmit` in internal/app/app.go.
--     Budget: internal/scanner/budget.go and the timeout of `dispatch`. Macaddr:
--     internal/macaddr/macaddr.go.
--   Netip: what these use of Go's net/netip and net packages; Base: shared lists, texts and tests.
--   Examples: the theorems at concrete inputs.
--
-- Conventions. A Go string is a list of character codes, an `int` that may be negative an integer, a
-- time a natural number; a text that selects behaviour (a status, a scan type) is a data type with a
-- case for the unknown ones. Sums and products of machine words in Budget wrap at 2 ^ 64. A map is
-- an association list with the order that the code reads it in, or a function where it reads no
-- order. A packet is a list of bytes, and an access out of range is the value `panic`. Loops are
-- structural recursion, or on fuel. The fuel of decimal printing and of the IPv6 parser is the number
-- of characters or digits, of which each turn uses one. `skip_name` has a turn for each byte of the
-- packet, as each moves forward; `read_dns_name` has seventeen rounds of as many turns, as it follows
-- at most sixteen pointers. A reader that runs out of fuel gives `stuck`, which Names/DnsLaws.antt and
-- Names/ReadLaws.antt exclude. Goroutines are lists of the statements that they send to the database,
-- and run in any interleaving of them.
--
-- Arguments of the model. PostgreSQL's casts and printing of addresses (`Postgres`) and its order of
-- texts (`below`), the names of agents, the zone database, the times of Go's `time` package, the
-- backends of a combined scan, the exchange of a datagram, the contents of the lease file, random
-- tokens, the runs of nmap with their decoded output, and the calls of the agent.
--
-- A VLAN is a natural number: a negative one is not represented. Addresses are stored with no mask,
-- as agents report hosts.
--
-- Not modelled: contexts and cancellation but for the launch loop of `enrich` and the targets of a
-- name lookup, the mutexes, logging, audit rows but for those of a job, lost database connections
-- but for the statements of `run`, the order of rows in suggestions, HTTP and TLS, the pages, and the
-- SNMP and DNS backends.
mod Base
pub mod Netip
pub mod Protocol
pub mod Combined
pub mod Window
pub mod Lockout
pub mod Budget
pub mod Macaddr
pub mod Inventory
pub mod Orchestrator
pub mod Names
pub mod Dhcp
pub mod Links
pub mod Nmap
mod Examples
