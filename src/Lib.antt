-- ===== src/Lib.antt =====
-- A verification library for ussycode, a server that gives its users virtual machines over SSH,
-- on one host or on a pool of nodes. It models the parts that decide: who is let through to a
-- VM, where a VM is placed, which addresses a node gets, and what the control plane thinks of
-- its nodes.
--
-- The parts and their files:
-- * Mesh (internal/mesh/allocator.go): the allocator of node subnets. Mesh.Net has the uint32
--   arithmetic and net.IPNet, Mesh.Allocator the state (struct Allocator) and one function for
--   each method: Allocate, Release, GetAllocation, FreeCount, AllocatedCount,
--   NewAllocatorCustom, maxSubnetIndex, subnetForIndex, indexForSubnet. The loop of Allocate
--   runs maxSubnetIndex rounds.
-- * ControlPlane (internal/controlplane/nodemanager.go, internal/proto/nodev1/node.go): the
--   nodes, their health, and the commands that wait for their heartbeats.
--   ControlPlane.NodeManager has RegisterNode, RemoveNode, ProcessHeartbeat, EnqueueCommand,
--   CheckTimeouts and the reads; what CheckTimeouts defers is the list of actions in the order
--   in which Go runs them.
-- * Scheduler (internal/scheduler/scheduler.go): filter, the five scores, and PlaceVM. Go's
--   float64 is a parameter (Float), sort.Slice another, of which a theorem assumes that it
--   sorts.
-- * Db (internal/db/models.go, internal/db/queries.go): the tables users, ssh_keys, vms, tags,
--   shares, custom_domains, tokens, magic_tokens and api_tokens as lists of rows, and the
--   statements on them. A transaction is one step; a foreign key, UNIQUE or PRIMARY KEY that
--   fails is an error that leaves the state as it was. A query for one row takes the first in
--   the order of the rows. Times are stored in full seconds.
-- * Proxy (internal/proxy/auth.go, internal/proxy/caddy.go): Proxy.Auth is the answer to
--   Caddy's forward_auth, which reads the database, and Proxy.Routes the map of the VMs'
--   routes. A Go string that is taken apart is the list of its bytes (Base.Strings).
-- * Vm (internal/vm/network.go, internal/vm/manager.go): the addresses and TAP devices of the
--   VMs, and CreateAndStart, Start, Stop, Destroy, ShutdownAll and CloneDisks, which update the
--   rows of Db. Vm.Manager has the state (struct Manager) and the starts, Vm.Ending the rest.
--   What the programs that they run answer is an argument of each operation.
-- * Shell (internal/ssh/commands.go, internal/ssh/shell.go, internal/proxy/caddy.go): the
--   commands of the SSH shell. Shell.Commands is the command new, from its arguments to the
--   start of the VM: the name, the quota of the user's trust level, CreateVM of Db and
--   CreateAndStart of Vm. Shell.Services is what a session does to the metadata server and the
--   proxy (Proxy.Routes), Shell.Lifecycle the commands stop, start, restart, cp, rm, tag and
--   rename over these, Db and Vm, Shell.Sharing the commands on shares and custom domains,
--   Shell.Keys those on SSH keys, and Shell.Admin set-trust. The theorems on histories rest on
--   Db.Owners, which says whose rows a statement touches.
-- * Api (internal/api/ratelimit.go, internal/api/handler.go): the HTTP API. Api.RateLimiter is
--   the token bucket of each user (Allow, RetryAfter), Api.Words has the functions of package
--   strings that cut a line into words, Api.Handler the handler of POST /exec with its three
--   ways to authenticate, which read Db.
-- * Gateway (internal/gateway/llm.go, internal/gateway/email_send.go,
--   internal/gateway/metadata.go): what a VM reaches on the metadata address. Gateway.Limiter
--   is its limiter (rateLimiterMap of llm.go) and Gateway.Llm the proxy of a request, cut in
--   two steps where Go holds no lock; Gateway.Registry is the map of addresses to VMs;
--   Gateway.EmailSend lets a VM write to its owner, with a limit for each hour;
--   Gateway.Metadata the pages that a VM reads about itself.
-- * Pki (internal/pki/ca.go): the join tokens of nodes, and the map of those that were used.
--   The signature is a parameter (Signer).
-- * Base (shared names): lists, maps, results and comparisons that the parts share.
--
-- A mutex makes each method one step, so a history is a list of calls. Shell.Keys.Overlap shows
-- what two commands do that interleave. Maps are association
-- lists whose order stands for the order in which Go happens to range over the map. Numbers are
-- natural numbers; where Go computes with uint32 the wrap-around is written out. All recursion
-- is on a list or on a number of rounds that the source states; only decimal takes fuel, one
-- more than the number printed, which has at most that many digits.
--
-- The rate limiters count with float64 in Go. Their rates are whole numbers for each minute
-- here, and their buckets hold exact multiples of a fraction of a request, so that nothing is
-- rounded; Go may answer a request at the very edge otherwise. What base64, JSON, the signatures of SSH keys and AES answer are arguments (Codec of
-- Api.Handler), and so are the answer of the mail relay and the table of Unicode's simple case
-- folding. Spaces are those of Unicode, read as UTF-8; of the letters outside ASCII, to_lower
-- turns those into lower case whose lower case lies in ASCII.
--
-- Not modelled: the programs that are run (ip, nft, zfs, firecracker), HTTP, SMTP and TLS,
-- which are libraries; logs and telemetry; faults of the database engine; incoming mail, the
-- admin pages, the arena, the X.509 certificates, WireGuard, the text of the requests to Caddy,
-- and the tables of the database that only these read. CreateAndStart and its like are taken as
-- one step each, though other calls may come between their parts.
pub mod Base
pub mod Mesh
pub mod ControlPlane
pub mod Scheduler
pub mod Db
pub mod Pki
pub mod Proxy
pub mod Vm
pub mod Shell
pub mod Api
pub mod Gateway
