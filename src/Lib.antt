-- ===== src/Lib.antt =====
-- Verification of rook-host, the host side of the rook link: a machine that runs agents pairs with
-- devices, publishes snapshots of its agents to them, and carries out the answers and commands
-- that they send.
--
-- The parts of the program and the modules that model them:
--
-- - projection/projection.go (the vocabulary both rails share): Projection. Projection.Text has
--   clip, strings.TrimSpace and fnv8; Projection.Command has ValidAnswer and ValidCommand;
--   Projection.Status, Projection.Pane and Projection.Digest have the three records and their
--   Clamp. Each child module (Bounds, Shape, Key, Clip, Trim) has the theorems.
-- - registry/registry.go (the paired devices and their file): Registry, with the data in
--   Registry.Book and the file in Registry.Storage; Registry.Meaning has the map of devices that it
--   stands for. Add, SetCapabilities, Touch and Revoke are add, set_capabilities, touch and revoke;
--   they take the fault that the disk access meets.
-- - pairing/pairing.go: Pairing.Window is the pairing window, Pairing.Qr the QR payload with URL
--   and ParseURL, over Pairing.Query for the query strings of net/url.
-- - identity/sign.go: Identity.Sign. identity/identity.go: Identity.Ids has the printable ids,
--   Identity.Uuid randomUUID, and Identity.State the state file with load, create and
--   LoadOrCreate.
-- - edgeclient/client.go (the outbound loop of a device of the cloud): Edgeclient.Protocol has the
--   client, its messages and its peers, Edgeclient.Events builds the events, Edgeclient.Sync has
--   Register, refuse and SyncOnce, whose state is the client and the list of calls made so far,
--   newest first; Edgeclient.Follow has Follow and watch as one step relation. edge/edge.go: the
--   constants are in Edgeclient.Events.
--   NewRPC and its interceptor are Edgeclient.Bearer.
-- - transport/transport.go: Transport, with Addrs and the listener.
-- - bonjour/: Bonjour, the advertisement with its TXT record and what both implementations register.
-- - gen/rook/link/v1/linkv1connect and gen/rook/edge/v1/edgev1connect (the generated routing):
--   Rpc.Link and Rpc.Edge, over Rpc, which has what they use of net/http's mux.
-- - edgesign/edgesign.go (the signatures on edge envelopes): Edgesign.Canonical and
--   Edgesign.Envelope, and the seeds Edgesign.Seed. edgesign/grant.go (approval grants):
--   Edgesign.Grant.
-- - link/tokens.go is Link.Tokens and Link.Nonces, link/hub.go is Link.Hub, link/panehub.go is
--   Link.PaneHub. What the two hubs share, the one-frame channel and the loop of the stream
--   handlers in link/server.go, is Link.Stream. link/convert.go: Link.Convert, over the messages
--   in Link.Wire.
-- - link/server.go and link/executor.go are Link.Server, which holds the server's state, Publish,
--   PublishPane and RevokeDevice; Link.Server.Pairing the handlers that come before a session; and
--   Link.Server.Session those of a session. A handler takes the server and the request and returns
--   a response or an error of Link.Errors, with the server it leaves. Link.Service puts them
--   together: NewServer, the mux of Handler, and one call of each method; Link.Service.History
--   has the histories of a whole server, with the calls of devices, the calls of the embedding host
--   to the server and to SetCapabilities of its registry, and the rounds of the streams.
--
-- The server calls every other part: a handler authorizes a header with Link.Tokens and Registry,
-- validates with Projection.Command, and calls the executor, which the embedding host supplies.
-- The edge client shares Edgesign with the cloud gateway and is independent of the server; an
-- identity is read once at boot and given to the server, and the QR payload carries its pin, the
-- window's secret and the addresses that Transport finds.
--
-- How the code is represented. A Go string or byte slice is the list of its bytes. An int is ℤ of
-- Base.Int, an unsigned integer a natural number with its wrap written out. A time is the count of
-- nanoseconds since Go's zero time. A nil slice is the empty list, a nil pointer `none`. Maps with
-- string keys that are never listed are functions (Base.Map); the registry's map is a list of
-- devices, one for each id. The clock's readings, the random bytes (or their failure), the disk
-- faults and whether a Send succeeds are arguments. Each method that holds a mutex is one step,
-- and an interleaving of calls is a list of such steps. In Link.Service.History a whole handler is
-- one step; Link.Service.History.Late has what a revocation in the middle of WatchStatus leaves.
--
-- Interfaces stand for code that is not in the repository: Crypto for crypto/ed25519 and
-- crypto/sha256 (what is signed verifies, and the sizes), JsonCodec for encoding/json, Timestamppb
-- for the protobuf timestamps, GrantCodec for the texts of a grant, Platform for the keys,
-- certificates and encodings of an identity, UrlParser for url.Parse, Payloads for anypb, Peer for
-- the cloud, the executor and the clock of an edge client, Host for what the embedding host
-- supplies. Crypto.Toy, Examples.Codecs and the other Examples have instances. Nothing is assumed
-- about forging signatures or colliding digests.
--
-- Fuel: only Base.Decimal uses it, 20 digits, which hold every 64-bit number. All other loops are
-- structural.
--
-- Not modelled: TLS and HTTP themselves (net/http, crypto/tls and connect, whose decoding of a
-- message is an argument), the mux's redirects of paths that are not clean, the withdrawal of an
-- advertisement, and the generated marshalling in gen. The goroutine of a stream handler is a watcher
-- with its events; the values of cost fields (float64) are bit patterns that nothing computes
-- with. Response headers, logs, error texts and contexts are left out, except for a context's end.
pub mod Base
pub mod Crypto
pub mod Edgesign
pub mod Edgeclient
pub mod Bonjour
pub mod Transport
pub mod Identity
pub mod Projection
pub mod Link
pub mod Registry
pub mod Pairing
pub mod Examples
pub mod Rpc
