-- ===== src/Lib.antt =====
-- A model of request-blocker: a daemon, webblockd, that keeps lists of domains and addresses, one
-- for all users and one for each user, and makes the firewall drop the traffic to them, and the
-- checks that it makes on the requests of its client.
--
-- How the parts interact. A request comes from a caller whose uid the kernel vouches for. The
-- dispatcher picks a handler. A handler that changes a list finds the scope that the caller may
-- change, normalizes and validates the items, and calls the engine. The engine changes the list
-- in the store and rebuilds: it loads all lists, resolves the domains that are not in its cache,
-- forms the desired state and gives it to a backend, which turns it into firewall rules.
--
-- The files, and the code they are about:
--   Shared      equality, order, lists, maps, results
--   Text        Go's strings as lists of code points, with what is used of packages strings and
--               strconv; int as a sign and a natural number
--   Store       internal/store/store.go. Scope and BlockList with the operations on them; Disk for
--               the files: new_store (New), load, save (saveLocked), mutate and list_user_uids
--   RateLimit   cmd/webblockd/ratelimit.go
--   Proto       internal/proto/proto.go, cmd/webblockd/identity.go
--   Validate    internal/validate/validate.go: Normalize for NormalizeDomain, Domain for
--               ValidateDomain, Address for NormalizeIP: Parse for net.ParseIP, Print for IP.String,
--               the others for what one makes of the other's results
--   Backend     internal/backend: State for backend.go and diff.go, Interface for the promise of a
--               backend, Nft for nft.go: Commands for the scripts and their text, Kernel for what
--               nft does with them, Declared for what it demands of them, Accepted, Scripted, Matching, Deltas, Users and Loops for the proofs,
--               Apply for Apply, Teardown for Teardown. Iptables for iptables.go: Commands for the payloads,
--               Tool for what ipset and iptables do, Defs for Apply and Teardown, Sets, Payloads,
--               Matching, Full and Names for the proofs, Apply and Teardown for what they promise.
--               Detect for Detect
--   Resolver    internal/resolver/resolver.go: Order for the results of ResolveMany, Pool for its
--               goroutines
--   Daemon      cmd/webblockd: Authz for authz.go, Engine for engine.go (Tables for the lists, the
--               cache and the sets, Defs for the operations), Handlers for handlers.go (Inputs for
--               normalizeAndValidate) and dispatch.go, Access for what a request can do, Server for server.go, Config
--               for config.go, Peer for peercred_linux.go, Start for main.go
--   Client      cmd/webblock/main.go: Arguments for parseArgs and validateActions, Requests for
--               buildRequest, Output for render, Main for send and main; Accepted and Effects for what
--               the daemon makes of the client's requests, Printed and Lines for what is printed, Ends for exit
--               statuses, Blocked for what they mean for the firewall
--
-- State and operations. A Disk is the two directories of the store, a file a Content. An Engine is
-- the disk, the cache of resolved addresses and the backend's own state. Operations take the
-- state and return it with a result; an error is a constructor that carries what its message
-- quotes. A mutex of the store makes each of its operations one step. rebuild runs the two locked phases of
-- Rebuild, rebuild_start and rebuild_finish, one after the other, with no change of the store in
-- between; the relation Step of Engine/Interleaved takes the phases apart into their reads of the
-- store and their Apply, and has these and the changes of all requests mix. ResolveMany is a Pool of
-- workers whose channels make a send and its receive one step. A start of the daemon is an exit or
-- a server, and its life a list of connections and refreshes (Event).
--
-- Parameters. The clock, the answers of each system call of a save (Io), whether the users'
-- directory can be read and the order in which Go walks its maps (World), DNS (Dns), the user
-- database (UserDb), lower case beyond ASCII, the backend (Backend), the tool nft with the kernel
-- (NftTool), whose hypotheses are that a script takes effect as a whole or not at all and that each
-- command does what its documentation says, and likewise ipset and iptables (IptablesTool), where
-- nothing is assumed of a command of Apply that fails and a command of Teardown changes one thing
-- or nothing, the probes of Detect (Probes), what the client's socket does (Socket), the values of the flags (Flags), what each directory
-- holds, and how the calls on the listening socket (SocketIo) and for a peer's credentials
-- (PeerCalls) end. A text of a request is valid
-- UTF-8, as Go's JSON decoder makes it.
--
-- Bounds. Loops are recursion on a list; the runs of the workers are of any length, and a theorem
-- bounds it. The digits of a number are printed on fuel, which is
-- a bound on their number. Uids are Go's int, 64 bits; the uid of a caller is 32 bits; where a
-- theorem needs this, it says so. Times and counts are natural numbers.
--
-- Not modelled: the bytes on the socket, package flag, signals, log lines, the texts of error messages, JSON as text, and file
-- permissions.
mod Shared
pub mod Text
pub mod Store
pub mod RateLimit
pub mod Proto
pub mod Validate
pub mod Backend
pub mod Resolver
pub mod Daemon
pub mod Client
