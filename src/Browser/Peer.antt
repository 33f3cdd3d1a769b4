-- ===== src/Browser/Peer.antt =====
-- `DiscoveredPeer` of browser.rs, its errors and events, and what `resolve` makes of a raw service.
use local_transfer.Prelude.{
  ok_or-ok, map_err-ok, guard-ok, ℕ, ◌≤◌, ◌<◌, ◌≡◌, false, ltb, ◌==◌, if◌then◌else◌, List, [], ◌∷◌,
  Option, none, some, length, Result, ok, err, ok_or, map_err, ◌>>=◌, >>=-eq-ok, ℕ_discrete, arith,
}
use local_transfer.Text.{Text, is_empty}
use local_transfer.Prelude.Order.{nat_ord, pair_ord}
use local_transfer.Discovery.Range.{highest_compatible_version, initial, Admits, highest_sound}
use local_transfer.Discovery.Metadata.{
  DiscoveryMetadata, DiscoveryMetadataError, DiscoveryTxtEntry, from_txt_entries,
}
use local_transfer.Browser.Key.{
  TransientDiscoveryKey, DiscoveryBrowserErrorKind, invalid_port, malformed_resolution,
  endpoint_limit, metadata, incompatible_protocol, new-new,
}
use local_transfer.Browser.Key
use local_transfer.Browser.Endpoint.{
  DiscoveryEndpoint, endpoint_key, collect, Strict, collect-Strict,
}

abbrev pub max_discovered_endpoints : ℕ
max_discovered_endpoints = 16

pub record DiscoveredPeer : Type 0 where
  pub key : TransientDiscoveryKey
  pub metadata : DiscoveryMetadata
  pub port : ℕ
  pub endpoints : List DiscoveryEndpoint
  pub protocol_major : ℕ

unfoldable pub Peer-discrete : Discrete DiscoveredPeer
Peer-discrete = hlevel ℕ_discrete

-- A boxed error: that of the metadata, or one of the mDNS library (`F`).
pub data ErrorSource (F : Type 0) : Type 0 where
  metadata_error : DiscoveryMetadataError → ErrorSource F
  foreign : F → ErrorSource F

pub record DiscoveryBrowserError (F : Type 0) : Type 0 where
  pub kind : DiscoveryBrowserErrorKind
  pub key : Option TransientDiscoveryKey
  pub source : Option (ErrorSource F)

pub data DiscoveryBrowserEvent (F : Type 0) : Type 0 where
  added updated refreshed : DiscoveredPeer → DiscoveryBrowserEvent F
  removed : TransientDiscoveryKey → DiscoveryBrowserEvent F
  error : DiscoveryBrowserError F → DiscoveryBrowserEvent F

pub record RawResolvedService : Type 0 where
  pub fullname : Text
  pub port : ℕ
  pub endpoints : List DiscoveryEndpoint
  pub txt : List DiscoveryTxtEntry

-- `NonZeroU16::new`
abbrev pub non_zero : ℕ → Option ℕ
non_zero n = if n == 0 then none else some n

module _ {F : Type 0} where
  abbrev pub without_source : DiscoveryBrowserErrorKind → DiscoveryBrowserError F
  without_source kind = record { kind = kind; key = none; source = none }

  abbrev pub for_key : DiscoveryBrowserErrorKind → TransientDiscoveryKey → DiscoveryBrowserError F
  for_key kind key = record { kind = kind; key = some key; source = none }

  abbrev pub for_key_with_source :
      DiscoveryBrowserErrorKind → TransientDiscoveryKey → ErrorSource F → DiscoveryBrowserError F
  for_key_with_source kind key source = record { kind = kind; key = some key; source = some source }

  -- `TransientDiscoveryKey::new`, whose errors all go through `without_source`.
  unfoldable pub new_key : Text → Result (DiscoveryBrowserError F) TransientDiscoveryKey
  new_key fullname = map_err without_source (Key.new fullname)

  -- The end of it: the metadata is read, and a common version chosen.
  unfoldable pub describe :
      TransientDiscoveryKey
      → ℕ
      → List DiscoveryEndpoint
      → List DiscoveryTxtEntry
      → Result (DiscoveryBrowserError F) DiscoveredPeer
  describe key port endpoints txt = do
    described ←
        map_err (λ source. for_key_with_source metadata key (metadata_error source))
          (from_txt_entries txt)
    protocol_major ←
        ok_or (highest_compatible_version initial described.protocols)
          (for_key incompatible_protocol key)
    ok (record {
      key = key;
      metadata = described;
      port = port;
      endpoints = endpoints;
      protocol_major = protocol_major;
    })

  -- `resolve` up to the look at the stored peers: every error returns from here.
  unfoldable pub resolve_peer : RawResolvedService → Result (DiscoveryBrowserError F) DiscoveredPeer
  unfolding describe
  resolve_peer resolved = do
    key ← new_key resolved.fullname
    port ← ok_or (non_zero resolved.port) (for_key invalid_port key)
    let endpoints = collect endpoint_key resolved.endpoints in
        if is_empty endpoints
        then err (for_key malformed_resolution key)
        else if ltb max_discovered_endpoints (length endpoints)
        then err (for_key endpoint_limit key)
        else describe key port endpoints resolved.txt

-- What the browser promises of a peer.
pub record IsResolved (p : DiscoveredPeer) : Type 0 where
  pub canonical : Key.new p.key.value ≡ ok p.key
  pub has_port : 0 < p.port
  pub has_endpoint : 0 < length p.endpoints
  pub few_endpoints : length p.endpoints ≤ max_discovered_endpoints
  pub ascending : Strict endpoint_key p.endpoints
  pub ours : Admits initial p.protocol_major
  pub theirs : Admits p.metadata.protocols p.protocol_major

non_zero-some : (n m : ℕ) → non_zero n ≡ some m → (n ≡ m) × (0 < m)
non_zero-some n m h = ground arith

not_empty : (xs : List DiscoveryEndpoint) → is_empty xs ≡ false → 0 < length xs
not_empty [] h = cc
not_empty (x ∷ xs) h = omega arith

-- Where an `ok_or` or a `map_err` succeeded.
-- Each step of `resolve` succeeded, with these results.
pub record Steps (r : RawResolvedService) (p : DiscoveredPeer) : Type 0 where
  pub key_read : Key.new r.fullname ≡ ok p.key
  pub port_read : non_zero r.port ≡ some p.port
  pub endpoints_read : p.endpoints ≡ collect endpoint_key r.endpoints
  pub some_endpoint : is_empty p.endpoints ≡ false
  pub few : ltb max_discovered_endpoints (length p.endpoints) ≡ false
  pub metadata_read : from_txt_entries r.txt ≡ ok p.metadata
  pub agreed : highest_compatible_version initial p.metadata.protocols ≡ some p.protocol_major

module _ {F : Type 0} where
  describe-ok :
      (key : TransientDiscoveryKey) (port : ℕ) (endpoints : List DiscoveryEndpoint)
      (txt : List DiscoveryTxtEntry) (p : DiscoveredPeer)
      → describe {F = F} key port endpoints txt ≡ ok p
      → (p.key ≡ key)
        × (p.port ≡ port)
        × (p.endpoints ≡ endpoints)
        × (from_txt_entries txt ≡ ok p.metadata)
        × (highest_compatible_version initial p.metadata.protocols ≡ some p.protocol_major)
  unfolding describe
  describe-ok key port endpoints txt p h =
      let (m, e, h1) = >>=-eq-ok (map_err _ (from_txt_entries txt)) _ h in
      let (v, o, h2) = >>=-eq-ok (ok_or (highest_compatible_version initial m.protocols) _) _ h1 in
      let t = map_err-ok _ (from_txt_entries txt) m e in
      let u = ok_or-ok (highest_compatible_version initial m.protocols) _ v o in
      (cc, cc, cc, cc, cc)

  resolve_peer-Steps :
      (r : RawResolvedService) (p : DiscoveredPeer) → resolve_peer {F = F} r ≡ ok p → Steps r p
  unfolding resolve_peer new_key
  resolve_peer-Steps r p h =
      let (key, k, h1) = >>=-eq-ok (new_key r.fullname) _ h in
      let (port, o, h2) = >>=-eq-ok (ok_or (non_zero r.port) (for_key invalid_port key)) _ h1 in
      let (some_endpoint, h3) = guard-ok (is_empty (collect endpoint_key r.endpoints)) _ _ p h2 in
      let (few, h4) =
        guard-ok (ltb max_discovered_endpoints (length (collect endpoint_key r.endpoints))) _ _ p
          h3 in
      let (ke, pe, ee, me, ve) =
        describe-ok key port (collect endpoint_key r.endpoints) r.txt p h4 in
      let kk = map_err-ok (without_source {F = F}) (Key.new r.fullname) key k in
      let oo = ok_or-ok (non_zero r.port) _ port o in
      record {
        key_read = rw ke kk;
        port_read = rw pe oo;
        endpoints_read = ee;
        some_endpoint = rw ee some_endpoint;
        few = rw ee few;
        metadata_read = me;
        agreed = ve;
      }

  -- A peer that is made from a raw service has a key in canonical form, a port that is not zero,
  -- between one and 16 endpoints in strictly ascending order, and a protocol version that this
  -- release and the peer both admit.
  pub resolve_peer-IsResolved :
      (r : RawResolvedService) (p : DiscoveredPeer) → resolve_peer {F = F} r ≡ ok p → IsResolved p
  resolve_peer-IsResolved r p h =
      let s = resolve_peer-Steps r p h in
      let v = highest_sound initial p.metadata.protocols p.protocol_major s.agreed in
      record {
        canonical = new-new r.fullname p.key s.key_read;
        has_port = (non_zero-some r.port p.port s.port_read).1;
        has_endpoint = not_empty p.endpoints s.some_endpoint;
        few_endpoints = ground (arith, s.few);
        ascending = rw (s.endpoints_read) (collect-Strict endpoint_key r.endpoints);
        ours = v.0;
        theirs = v.1;
      }
