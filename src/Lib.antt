-- ===== src/Lib.antt =====
-- The core of iolinkd, the IoLink water-quality platform: the Go packages under internal/ that
-- decide, grant, lease and classify. This library models them definition by definition and proves
-- what makes them correct.
--
-- The parts, and how they interact. A viewer asks the playback service (internal/playback) for a
-- camera. The service checks the actor, the license guard and the signed claims, and the media
-- store (internal/media, internal/mediajobs) keeps a session and a start job. The viewer then
-- reads a manifest, whose segments the service shows under its own addresses, and the segments.
-- Media workers claim jobs under a lease, call the provider and end the job with a result that the
-- job store interprets. RTP streams take a pair of ports from the allocator (internal/media/rtp).
-- Before a camera's RTSP address is used, the admission (internal/media/rtsp) pins it to one of
-- the addresses that its name resolves to. Cameras register over GB28181 (internal/gb): the
-- service issues a nonce, and takes a registration whose digest proves the password on that nonce,
-- and then the keepalives and catalogues that the camera sends as XML messages. The service also
-- asks a camera for the pages of its catalogue (internal/gbcatalog) and stores it once it is
-- whole. The camera service (internal/camera, with the transactions of internal/camerapg) creates
-- and changes the cameras themselves, under the license, and has their credentials sealed. Devices
-- connect to the MQTT broker (internal/access), which keeps one session for each device and lets a
-- client use the topics of its own device only. Each report of a device updates its shadow
-- (internal/core/pipeline.go), the latest value of every property. A worker
-- (internal/notifications) sends the notifications of alarms and puts off those that fail.
--
-- Files. Base.antt and its children: tests, lists, integers, maps, strings, runes, numerals and Go
-- errors. Media.antt: internal/media/contracts.go. Rtp.antt and its children:
-- internal/media/rtp/ports.go, with Rtp/Alloc for `Allocate` and `Release`, Rtp/Held for the set
-- of held pairs and Rtp/Traces for sequences of calls. Jobs.antt and its children:
-- internal/mediajobs/store.go and validation.go, with Jobs/Store and Jobs/Finish for the
-- operations, Jobs/Order for the scan of `ClaimJob`, Jobs/Calls for what a successful call did,
-- Jobs/Invariant, Jobs/Leases, Jobs/Rounds and Jobs/Traces. Playback.antt and its children:
-- internal/playback/service.go, with Playback/Effects for what the service is configured with,
-- Playback/Checks for the pure checks, Playback/Results for `jobResult`, Playback/Service,
-- Manifest and Worker for the methods, Playback/Segments for the grammar of segment paths, and
-- Playback/Outcomes, Access, Grants, Grammar, Paths, Lines, Rewrites, Reads and Rounds for the
-- theorems. Gb.antt and its children: internal/gb, with Gb/Peers for contracts.go, Gb/Nonces for
-- nonce.go, Gb/Digest, Register and Handle for digest.go, Gb/Xml for message_xml.go, Gb/Messages
-- for `HandleMessage` and `HandleSIPMessage`, and Gb/NonceLaws, NonceCalls, NonceLife,
-- NonceTraces, Grants, Status, XmlLaws and Inbox for the theorems. Rtsp.antt and its children:
-- internal/media/rtsp/admission.go, with Rtsp/Addresses for the tests of an address, Rtsp/Uri for
-- `parseURI`, Rtsp/Admission for `New` and `Pin`, and Rtsp/Order, Chosen and Pinned for the
-- theorems. License.antt and its children: internal/license/license.go (License/Status),
-- parsing.go and signature.go (License/Json and License/Files), internal/core/license_clock.go
-- (License/Clock) and internal/core/license_runtime.go (License/Admission for
-- `checkDeviceAdmission`, License/Features for `LicenseStatus` and `RequireLicenseFeature`), with
-- License/Laws, Traces, Verified, Admitted, Named and Featured for the theorems. Access.antt and its
-- children: internal/access, with Access/Topics for auth.go, Access/Sessions and Access/Sweep for
-- access.go, Access/Broker for broker.go, and Access/Sandbox, Steps, Invariant, Traces and Clients
-- for the theorems. Catalog.antt and its children: internal/gbcatalog, with Catalog/Pages for
-- contracts.go and validation.go, Catalog/Coordinator and Endings for the critical sections of
-- catalog.go and Catalog/Calls for its calls whole, and Catalog/Merge, Commits, Sections and
-- Traces for the theorems. Camera.antt and its children: internal/camera, with Camera/Source and
-- Camera/Credentials for internal/domain/video_source.go and video_credentials.go,
-- Camera/Configuration for configuration.go, Camera/Store for ports.go and
-- internal/camerapg/store.go, Camera/Service for service.go, and Camera/Transactions, Written,
-- Configured, Binding, Errors and Parsed for the theorems. Shadow.antt and its children:
-- `shadowUpsert` of internal/core/pipeline.go (Shadow/Upsert), with Shadow/Cells, Newest and Order
-- for the theorems. Notify.antt and its children: internal/notifications/worker.go
-- (Notify/Worker), with Notify/Outcomes, Limits and Rounds for the theorems. World.antt: code that calls
-- the outside world. The Examples of each part apply its theorems to concrete data.
--
-- How the code is read. A string is its list of bytes; a string type with named constants is an
-- enum whose last constructor holds any other string. An int or int64 is an integer without
-- bounds: the modelled code adds at most one to a value below seven, and takes a quota of devices,
-- which the parsing of a license keeps from being negative, off a larger count. A time is a number
-- of nanoseconds since Go's zero time, 0, which `IsZero` tests; `UTC` leaves it as it is, and so does a
-- store that keeps it and gives it back, although PostgreSQL rounds to microseconds. An error
-- is a sentinel value, or another error with the sentinels that `errors.Is` finds in it. A map is
-- an association list, its order that of `range`: where the code lets Go choose among entries
-- of a map, as when it drops one of too many, or the one of two that end first, the list's order
-- chooses. A method that changes its receiver returns the
-- new state; one that runs under a mutex is one step (`OnACLCheck`,
-- which locks three times to read, is read as one), and the theorems on traces range over all
-- sequences of steps. A context is the answers of its `Err`, or, where the code calls the outside
-- world with it, a part of that world. Clocks, random tokens, uuids and the calls of interfaces
-- are arguments; code that calls the outside world takes the world and returns it. A store that
-- reports an error from `ClaimJob` is taken to report false with it, as both implementations do. A
-- method that gives its mutex up between two parts is a definition for each part, and the theorems
-- on traces interleave the parts of all calls at will. A pointer that is compared is an identity,
-- a number.
--
-- Fuel. The printing of decimals takes one more than the number, which has fewer digits. The loop
-- by which `Issue` evicts nonces takes one more than the store's size, and each round evicts one.
--
-- A parser of the standard library whose result is only read, of URLs, XML or JSON, is a
-- parameter.
--
-- Not modelled: the payloads of MQTT packets; the SQL of the PostgreSQL stores, the HTTP handlers,
-- the MQTT broker library and the commands; nil receivers; logging and metrics.
pub mod Base
pub mod Access
pub mod Camera
pub mod Catalog
pub mod Gb
pub mod Jobs
pub mod License
pub mod Media
pub mod Notify
pub mod Playback
pub mod Rtp
pub mod Rtsp
pub mod Shadow
pub mod World
