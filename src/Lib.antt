-- ===== src/Lib.antt =====
-- AnixOps SD-WAN: a verification library of the control plane, the edge and the transports.
--
-- The program is a control plane that keeps tenants with their devices, nodes, routing rules and
-- configurations; edges that let clients in and forward their connections to egress nodes; and a
-- client side that chooses, starts and replaces a transport. Requests to the control plane are
-- authenticated by a session and authorized by the roles of its subject, then they call the
-- repository; the repository builds a policy engine of the rules that it stores, to decide over a
-- request; an edge limits, ranks and dials by itself; the selector of a transport reads the
-- signals of the probes and its supervisor starts what was selected. A node and an agent take their
-- configuration from the control plane and send heartbeats and reports back; a Linux gateway turns
-- the rules of the policy into routes. Profiles for clients and POPs travel in signed envelopes.
--
-- Files and source, by paths from the root of the repository:
--   Domain       internal/domain/types.go: Tenant, Device, Node, NodeHeartbeat, AuditEvent,
--                ConfigBundle and their Validate; Domain/Selection is selectConfig of
--                internal/node/service.go and internal/agent/sync.go
--   Node         internal/node/service.go: Snapshot, ApplyConfig, SyncOnce, observeControlNode
--   Agent        internal/agent: Agent/Queue is telemetry_queue.go and pushTelemetry (sync.go),
--                Agent/Service and Agent/Changes are service.go with cache.go and
--                internal/config/config.go, Agent/Sync is SyncOnce and SyncSignedOnce of sync.go,
--                Agent/Backoff the waits of runSyncLoop
--   Contract     internal/controlcontract: Contract and Contract/Checks are profile.go,
--                Contract/Envelope is envelope.go (SigningInputV1, Sign, Verify)
--   Gateway      internal/linuxgw: config.go (Validate, the route commands), Gateway/Files its
--                RenderNftables and RenderDNSMasq, Gateway/Apply is apply.go, Gateway/Egress
--                egress_plan.go (PlanPolicyRouteRules)
--   Release      internal/release: the Validate of manifest.go, and rollback.go (ExecuteRollback)
--   Telemetry    internal/telemetry/telemetry.go: Report, Validate, Sanitized
--   Policy       internal/policy/policy.go: Rule, NewEngine (new_engine), Evaluate (evaluate);
--                Policy/Bundle is bundle.go (DefaultClassRules, MergeRules), Policy/Classifier
--                classifier.go (NewClassifier, Classify)
--   Auth         internal/auth/rbac.go: Authorizer.Allowed (allowed); Auth/Session is session.go
--                (Issue, Authenticate, Revoke, and FileSessionStore with save)
--   Store        internal/store/memory.go: Memory and each of its methods under its name;
--                Store/Reads has those that only read, Store/Calls makes
--                histories of the others; Store/Files is file.go and snapshot.go
--   Edge         internal/edge/edge.go: Authenticator, WindowLimiter (allow), HealthTracker
--                (observe, candidates), Scheduler (rank, pick); Edge/Handler is handler.go,
--                Edge/Runtime runtime.go (HandleConnection), Edge/Forwarder forwarder.go
--   Transport    internal/transport: protocol.go, selector.go (select) and the signals of
--                probe.go; Transport/Switching is runtime.go (SwitchRuntime.Evaluate),
--                Transport/Lifecycle supervisor.go (Supervisor)
--   Net          what is used of Go's packages net and unicode, as a record that every theorem
--                takes; Net/Samples is the instance of the tests
--   Base         strings, numbers, maps (Base/Table), sorting, and Go's pairs of value and error
-- The other files of a folder hold what is proved of its parent; each Tests runs the definitions
-- and applies the theorems at concrete inputs.
--
-- How the code is read:
--   * A string is its runes, and `<` compares them in order. An int that can be negative is a ℤ;
--     other counts are natural numbers, which do not wrap: the source adds one to them, or adds
--     durations to times, far below 2^63. A float64 is its 64 bits, with comparisons on them.
--   * A time is the nanoseconds since Go's zero time, so 0 is what IsZero accepts.
--   * A map is the list of its entries in the order in which a range meets them. Go leaves this
--     order open, so what is proved holds in each order.
--   * A pair of value and error is an Outcome; the error is a constructor with the parts of its
--     message. A method on shared state takes the state and returns it: the mutex of each object
--     makes its calls atomic, so a history is a list of calls.
--   * The clock, random bytes, faults of the disk, dials, copies, commands and processes are
--     arguments. Where an answer may change, it is a function of the number of calls before it.
--   * What runs one after another in a process is one step where the source holds a mutex; SyncOnce
--     of a node or an agent, which takes it several times, is read with no other call between. A
--     time.Duration that is multiplied, and a mark or a preference that is counted from its base, is an
--     int64 that wraps.
-- Every recursion is structural. The only fuel is that of decimal digits (of an event's number, of a
-- sequence, a mark or a port), which is the number itself, and this many steps always suffice.
--
-- Not modelled: the HTTP servers and clients, JSON, sockets and processes themselves; x509, the
-- primitives of ed25519 and password hashing (internal/cert, internal/config, parts of
-- internal/auth); the texts of WireGuard, FRR and transport configurations (internal/core,
-- internal/transport/config.go, server_config.go); the service chains and observers of
-- internal/linuxgw, the scan and the files of a release manifest, and the desktop; the agent's
-- signing keys, revocation lists and local API.
pub mod Base
pub mod Net
pub mod Domain
pub mod Telemetry
pub mod Policy
pub mod Auth
pub mod Store
pub mod Edge
pub mod Transport
pub mod Node
pub mod Agent
pub mod Gateway
pub mod Contract
pub mod Release
