-- ===== src/Examples/Browser.antt =====
-- A service that is resolved, resolved again and removed, and a session over a backend with one event.
use local_transfer.Prelude.{
  ◌↔◌, ◌++◌, ℕ, suc, ◌≡◌, refl, true, none, some, ok, arith, List, [], ◌∷◌,
}
use local_transfer.Text.{codes, Text}
use local_transfer.Text
use local_transfer.Browser.Key
use local_transfer.Browser.Key.{
  TransientDiscoveryKey, canonical_iff, Accepted, transient_key_suffix, split_at, key_at,
}
use local_transfer.Browser.Endpoint.{ipv4, ipv6, collect_from, set_insert}
use local_transfer.Browser.Peer.{
  RawResolvedService, DiscoveredPeer, resolve_peer, new_key, describe, IsResolved,
  resolve_peer-IsResolved,
}
use local_transfer.Browser.State.{RawBrowserEvent, resolved, gone, empty_state, translate}
use local_transfer.Browser.State.Follow.{Told, translate-Told, view, run, replay, replay-run}
use local_transfer.Browser.Session.{
  BrowserBackend, BrowserSession, poll_times, stop, nones, stop_quiet,
}
use local_transfer.Discovery.Range.{highest_compatible_version, initial}
use local_transfer.Discovery.Metadata.{DiscoveryMetadata, to_txt_entries}
use local_transfer.Discovery.Metadata.RoundTrip.{IsValid, from_txt_entries-to_txt_entries}

abbrev fullname : Text
fullname = codes "desk._Local-Transfer._tcp.LOCAL."

abbrev key : TransientDiscoveryKey
key = record { value = codes "desk._local-transfer._tcp.local." }

key_read : Key.new fullname ≡ ok key
unfolding Key.new split_at key_at Text.str_len Text.len_utf8 Text.is_control
    Text.eq_ignore_ascii_case Text.to_ascii_lowercase
key_read = refl

canonical_iff_example : (Key.new fullname ≡ ok key) ↔ (
    (name : Text) × (suffix : Text) × (key.value ≡ name ++ transient_key_suffix)
    × Accepted fullname name suffix)
canonical_iff_example = canonical_iff fullname key

abbrev described : DiscoveryMetadata
described = record { protocols = initial; name = none; platform = none }

described-IsValid : IsValid described
described-IsValid = record { ordered = omega arith; narrow = omega arith; named = tt }

abbrev service : RawResolvedService
service = record {
  fullname = fullname;
  port = 4040;
  endpoints = ipv4 3232235777 ∷ ipv6 1 2 ∷ ipv4 3232235777 ∷ [];
  txt = to_txt_entries described;
}

abbrev peer : DiscoveredPeer
peer = record {
  key = key;
  metadata = described;
  port = 4040;
  endpoints = ipv4 3232235777 ∷ ipv6 1 2 ∷ [];
  protocol_major = 1;
}

-- No error of the mDNS library occurs here.
peer_read : resolve_peer {F = Unit} service ≡ ok peer
unfolding resolve_peer new_key describe collect_from set_insert highest_compatible_version
peer_read = rw (key_read, from_txt_entries-to_txt_entries described described-IsValid) refl

resolve_peer-IsResolved_example : IsResolved peer
resolve_peer-IsResolved_example = resolve_peer-IsResolved service peer peer_read

abbrev raws : List (RawBrowserEvent Unit)
raws = resolved service ∷ resolved service ∷ gone fullname ∷ []

translate-Told_example : Told {F = Unit} empty_state (translate empty_state (resolved service))
translate-Told_example = translate-Told empty_state (resolved service)

replay-run_example :
    replay key (run empty_state raws).0 (view empty_state key) ≡ view (run empty_state raws).1 key
replay-run_example = replay-run empty_state raws key

-- A backend that counts its calls.
instance abbrev counting : BrowserBackend Unit ℕ
counting = record {
  poll_event = λ n. (some (resolved service), suc n);
  stop = λ n. (ok tt, suc n);
  best_effort_stop = λ n. suc n;
}

abbrev session : BrowserSession ℕ
session = record { backend = 0; state = empty_state; active = true }

stop_quiet_example :
    (poll_times {F = Unit} 3 (stop {F = Unit} session).1 ≡ (nones 3, (stop {F = Unit} session).1))
    × (stop {F = Unit} (stop {F = Unit} session).1 ≡ (ok tt, (stop {F = Unit} session).1))
unfolding stop
stop_quiet_example = stop_quiet 3 session refl
