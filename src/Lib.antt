-- ===== src/Lib.antt =====
-- A model of local-transfer's core, a Rust library (crates/local-transfer-core/src) that lets devices
-- on a local network find and pair with each other.
--
-- The parts and how they interact. A device advertises TXT metadata (discovery.rs,
-- advertisement.rs). The browser
-- (browser.rs) turns what the mDNS library resolves into validated peers and events about them; the
-- state of discovered peers (discovered_peers.rs) follows those events on the caller's timeline. Two
-- devices then run the request phase of pairing (pairing.rs): an initiator and a responder, one state
-- machine each, that exchange bounded messages. The device's name, its identifier and the peers it trusts
-- are files (device_name.rs, identity.rs, trusted_peers.rs), written through the helpers of
-- persistence.rs.
--
-- The files, with the paths below crates/local-transfer-core/src:
--   Pairing/Message      pairing.rs: PairingMessage, its encode and decode
--   Pairing/Request      pairing.rs: PairingRequest, the initiator, one function per method
--   Pairing/Response     pairing.rs: PairingResponse, the responder, likewise
--   Pairing/Exchange     both machines as a step relation over a network, with an invariant of it in
--                        Exchange/Agreed
--   Discovery/Range      discovery.rs: DiscoveryProtocolRange
--   Discovery/NameHint   discovery.rs: DiscoveryNameHint
--   Discovery/Metadata   discovery.rs: DiscoveryTxtEntry, DiscoveryMetadata and the TXT codec
--   Browser/Key          browser.rs: TransientDiscoveryKey
--   Browser/Endpoint     browser.rs: DiscoveryEndpoint and the BTreeSet of them
--   Browser/Peer         browser.rs: DiscoveredPeer, the errors and events, the checks of resolve
--   Browser/State        browser.rs: BrowserState::translate and resolve
--   Browser/Session      browser.rs: BrowserSession over any BrowserBackend
--   Advertisement        advertisement.rs: DiscoveryAdvertisementConfig, ServiceSpec and
--                        AdvertisementSession over any AdvertisementBackend
--   Peers                discovered_peers.rs: DiscoveredPeerState (expire in Peers/Expire)
--   Trusted              trusted_peers.rs: PeerKeyIdentity, TrustedPeerLabel and the hex text
--   Trusted/Errors       trusted_peers.rs: TrustedPeerStoreError, MalformedStoreReason
--   Trusted/Format       trusted_peers.rs: TrustedPeers, encode, decode and the parsers of a line
--   Trusted/Lookup       trusted_peers.rs: TrustedPeers::get and contains
--   Trusted/Store        trusted_peers.rs: TrustedPeerStore, one function per method
--   DeviceName           device_name.rs: DeviceName
--   DeviceName/Store     device_name.rs: DeviceNameStore, one function per method
--   Identity             identity.rs: FromStr for DeviceId, and DeviceIdStore, one function per
--                        method; the identifier of DeviceId::random is an argument
--   FileSystem           the calls of std::fs and of the crate tempfile, as a parameter, with what is
--                        documented of them
--   Persistence          persistence.rs on Unix
--   Platform             platform.rs: Platform
--   Text                 what the code uses of Rust's str, String and u16, and trusted_peers.rs:
--                        parse_canonical_u16
--   Prelude              tests, lists, results, total orders, sorting, HashMap as a table, and
--                        fallible steps on a world (Prelude/Actions)
--   Examples             one concrete run for each theorem that has hypotheses
--
-- How the code is read. A method that changes `self` returns the new record with its result; an early
-- return of `short_circuit` is the helper `or_return`. A `Result` is `Result`, with `?` as bind. A
-- `Duration` is a number of nanoseconds. A string is the list of its Unicode scalar values, and byte
-- offsets and lengths are counted in UTF-8. `none` stands for a panic where the code can panic (a
-- slice, a count below zero). A HashMap is an association list; the theorems that need its keys to be
-- distinct say so. A counter of records is not bounded by 2 ^ 64. Sizes that the code adds with
-- saturation saturate here at 2 ^ 64 - 1.
--
-- Files. A step that reaches the file system takes a world and returns a result with the next world.
-- The calls are the fields of the record FileSystem, and Documented says what is documented of them
-- for the file at one path: the rename is atomic, and nothing but the rename changes that file. So
-- no other process writes the file while a method runs; the branches of create_default and of create
-- for a file that appeared meanwhile are modelled all the same. A path is a text. A temporary file
-- that is dropped is removed, which no theorem speaks of. The lock's guard is released by the call
-- of unlock after the body, whatever the body's result. Permissions are those of Unix. Working says
-- in which worlds the calls that a store makes succeed: its `sound` worlds are those where the
-- directory of the path is there or can be made and nothing but a regular file stands at the path,
-- and each call is asked to succeed only where the directory, the file or the temporary file that it
-- needs is there.
--
-- Fuel. The decimal print of a u16 counts down: five rounds, since a u16 has at most five digits. The
-- binary search counts down from the length of what it searches, which is more than its halvings. The
-- loop of `from_device_name` that steps back to a character boundary is recursion on the offset.
--
-- Parameters. `uuid::Uuid` is any type with the record UuidBytes, and with the record UuidText for
-- its text; the errors of the mDNS library are any type; a BrowserBackend and an
-- AdvertisementBackend are any records of their calls; a FileSystem is any record of its calls.
--
-- Not modelled: the local device (local_device.rs), the mDNS backends of browser.rs and
-- advertisement.rs, the choice of the configuration directory, the Display texts, and the command
-- line (apps/cli). The network of Pairing/Exchange forges no message, since the phase does not
-- authenticate; it may deliver one request several times, and each delivery may make a responder.
pub mod Prelude
pub mod Text
pub mod Platform
pub mod DeviceName
pub mod Discovery
pub mod Advertisement
pub mod Browser
pub mod Peers
pub mod Pairing
pub mod FileSystem
pub mod Persistence
pub mod Identity
pub mod Trusted
mod Examples
