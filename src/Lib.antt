-- ===== src/Lib.antt =====
-- A verification of the IoT ephemeral value store, an HTTP server that keeps JSON documents for a
-- limited time. A device writes under an upload key, and readers use the download key that is
-- derived from it.
--
-- Parts and files. Domain (domain/domain.go) has the keys. Data (data/merge.go and
-- data/traverse.go) has the nested documents: MergeDataAtPath is merge_data_at_path, and
-- TraverseField is traverse_field. Stats (stats/stats.go) has the counters. Storage
-- (storage/storage.go) has the database behind its circuit breaker. Service (data/data.go) has the
-- methods that join these: upload, patch, download_json, download_field, delete and
-- generate_key_pair. Http (httphandler/utils.go, httphandler/datahandling.go, the replies and
-- paths of httphandler/uploadHandler.go and httphandler/downloadHandler.go) has what the REST
-- interface makes of texts and maps, and Handlers (httphandler) the handlers over the service and
-- its counters. Middleware (middleware) has the chain that each request passes before its handler.
-- Mcp (mcphandler/tools.go) has the tools of the MCP interface over the same service, and
-- Mcp.Server (mcphandler/server.go) their registration and the choice by method. Router has the
-- routes of main.go, and Site its handlers and how a request goes from the router through the
-- middleware to its endpoint. Start has main up to the listening server, with the list of trusted
-- proxies and the health check. Functions keep the source's names in snake case.
--
-- Strings are lists of bytes (Base.Strings); Base.Order compares them. Hex models package
-- encoding/hex. Json has the values of encoding/json and Go maps, as association lists in the
-- order of their keys, so that equal maps are equal lists; a loop over a map runs in that order,
-- which is one of those that Go may choose. Base.Results has the errors and a result type with a
-- case for a panic.
--
-- What the service promises, without a database, is Service.Spec; Service.Refines relates it to
-- the storage, and Service.Simulates takes calls one by one. Service.Documents has what a stored
-- text is, Service.Ensures how such an invariant passes through a call, and Service.History the
-- histories of calls, resets and late writes. Service.Isolation has what an operation leaves
-- alone. Site.Requests passes what the operations of the service keep to sequences of requests of
-- both interfaces: to histories in Site.Histories, and to the entries of others in Site.Isolation.
-- Site.Keeps has the requests that do not write, and Site.Passing what the middleware lets
-- through.
--
-- Interfaces for code outside the repository: Domain.Platform (SHA-256, the lower case of letters
-- beyond ASCII and the layout of times), Codec.Codec (encoding/json over documents of strings and
-- maps, which decodes at most 10000 maps inside one another: Codec.max_nested may stand inside the
-- outermost), Storage.Badger (the database by its keys, with expiry at whole seconds),
-- Handlers.Web (base64, the escaping of a path and the template of a page), Middleware.Net and
-- Start.Addresses (addresses, networks and limiters), Storage.Collection.ValueLog (the value log
-- of the database, and that a database that is closed commits nothing), Router.Mux (how package
-- gorilla/mux matches a path against a template) and Site.Pages (embedded files, the index page,
-- the file server and the answers of the MCP library). Site.Outside joins them. Each has an
-- instance in a module of tests, where the theorems are applied to concrete inputs.
--
-- Storage.Disk (storage/disk_unix.go and storage/disk_windows.go) has the free space as an int64
-- (Base.Int), and Storage.Health when the health check is content. Storage.Collection has Close
-- and the goroutine that collects the value log, as events that come in any order, and
-- Storage.Flight writes of several callers at once. Service.Interleaved has calls that overlap: a
-- patch is cut between its read and its write, and other calls come between.
--
-- Time is an argument of each call, in nanoseconds. What a select statement leaves open in
-- storage/storage.go is an argument too: ReadRun and WriteRun say whether the transaction, the
-- context or the timeout comes first. Storage.Deadlines decides it by the clock, from the context
-- and the time that the transaction takes, and Service.Waiting puts a patch together from its two
-- waits and the other calls from one. A write that its caller has given up stays in the list
-- pending, from which a later step lands or drops it. Counters are 64-bit integers by their bit
-- pattern. The fuel of Base.Strings.decimal is one more than the number printed, which has fewer
-- digits; all other loops are structural.
--
-- A request to Site has the path that the router looks at: package mux redirects a path that is
-- not clean before. The tool calls of one MCP request run one after the other, and requests to
-- Site are served one after the other, each on the state that the last one left; only
-- Service.Interleaved and Storage.Flight let operations overlap. A reply that is missing is a
-- panic of the handler or the end of the process. The lifetime that time.ParseDuration yields is a
-- natural number.
--
-- Not modelled: the system calls that ask for the free space, the time that goroutines take to
-- start and to wake up, logging, the parsing of the command line, what the listening server does
-- with its timeouts, the transport of the MCP interface and the pages.
pub mod Base
pub mod Hex
pub mod Domain
pub mod Json
pub mod Data
pub mod Stats
pub mod Codec
pub mod Storage
pub mod Service
pub mod Http
pub mod Handlers
pub mod Middleware
pub mod Mcp
pub mod Router
pub mod Site
pub mod Start
