-- ===== src/Examples/Trusted.antt =====
-- Two trusted peers, the file that holds them, and a store on a disk.
use local_transfer.Prelude.{
  ℕ, zero, suc, ◌≡◌, ◌≢◌, inl, refl, ap, false, some, none, List, [], ◌∷◌, All, arith, ok,
  ℕ_discrete, length,
}
use local_transfer.Prelude.Order.{pair_ord, list_ord, nat_ord, list_le?}
use local_transfer.Text.{
  Text, Text-discrete, codes, IsScalar, is_control, is_whitespace, str_len, len_utf8,
}
use local_transfer.Text.Trim.{trim}
use local_transfer.FileSystem.{missing, regular}
use local_transfer.Trusted.{PeerKeyIdentity, TrustedPeerLabel, new, new_label}
use local_transfer.Trusted.Format.{TrustedPeerRecord, encode, decode}
use local_transfer.Trusted.Format.Lines.{RecordIsValid}
use local_transfer.Trusted.Format.RoundTrip.{StoreIsValid, decode-encode_file}
use local_transfer.Trusted.Format.Validity.{decode-IsValid}
use local_transfer.Trusted.Format.LongLabel.{labelled, IsLong, decode-encode_long}
use local_transfer.Trusted.Lookup.{get, find}
use local_transfer.Trusted.Lookup.Search.{get-find}
use local_transfer.Trusted.Store.{TrustedPeerStore, store_record, lock_path, without}
use local_transfer.Persistence.{
  ensure_hardened_parent, harden_existing_file, create_synced_temporary, sync_parent_directory,
}
use local_transfer.Text.Utf8.{as_bytes, encode_char}
use local_transfer.Text.Decimal.{to_string}
use local_transfer.Prelude.Sort.{sort_by}
use local_transfer.Trusted.Hex.{push_hex}
use local_transfer.Trusted.Store.Locked.{Beside}
use local_transfer.Trusted.Store.Laws.{Loadable, Holding, store_record-Loadable, store_record-get}
use local_transfer.Examples.Disk.{Disk, disk, disk-Documented, disk-entry}

abbrev alice_key : PeerKeyIdentity
alice_key = record { scheme = 1; material = 0 ∷ 0xab ∷ 0xff ∷ [] }

abbrev alice : TrustedPeerRecord
alice = record { identity = alice_key; label = some (record { value = codes "Alice" }) }

abbrev bob : TrustedPeerRecord
bob = record { identity = record { scheme = 2; material = 7 ∷ [] }; label = none }

abbrev two : List TrustedPeerRecord
two = alice ∷ bob ∷ []

alice_label : new_label (codes "Alice") ≡ ok (record { value = codes "Alice" })
unfolding new_label trim is_control is_whitespace
alice_label = refl

alice-IsScalar : All IsScalar (codes "Alice")
alice-IsScalar = (
  inl (omega arith),
  (inl (omega arith), (inl (omega arith), (inl (omega arith), (inl (omega arith), tt)))),
)

alice-IsValid : RecordIsValid alice
unfolding new str_len len_utf8
alice-IsValid = record {
  narrow = omega arith;
  bytes = omega arith;
  accepted = refl;
  labelled = (alice-IsScalar, alice_label, omega arith);
}

bob-IsValid : RecordIsValid bob
unfolding new
bob-IsValid = record { narrow = omega arith; bytes = omega arith; accepted = refl; labelled = tt }

two-IsValid : StoreIsValid two
unfolding list_le?
two-IsValid = record {
  sorted = ((refl, tt), (tt, tt));
  distinct = ((λ e. omega (arith, ap (λ k. k.0) e), tt), (tt, tt));
  few = omega arith;
  valid = (alice-IsValid, (bob-IsValid, tt));
}

decode-encode_file_example : decode (encode two) ≡ ok (record { records = two })
decode-encode_file_example = decode-encode_file two two-IsValid

decode-IsValid_example : StoreIsValid two
decode-IsValid_example =
    decode-IsValid (encode two) (record { records = two }) decode-encode_file_example

get-find_example : get (record { records = two }) alice_key ≡ find two alice_key
get-find_example =
    get-find (record { records = two }) alice_key two-IsValid.sorted two-IsValid.distinct

-- A label of 43 characters of three bytes each.
abbrev repeat : ℕ → ℕ → Text
repeat zero c = []
repeat (suc n) c = c ∷ repeat n c

abbrev long_label : TrustedPeerLabel
long_label = record { value = repeat 43 0x4e2d }

long_label_accepted : new_label long_label.value ≡ ok long_label
unfolding new_label trim is_control is_whitespace
long_label_accepted = refl

repeat-IsScalar : (n : ℕ) → All IsScalar (repeat n 0x4e2d)
repeat-IsScalar zero = tt
repeat-IsScalar (suc n) = (inl (omega arith), repeat-IsScalar n)

long_label-IsLong : IsLong long_label
unfolding str_len len_utf8
long_label-IsLong = omega arith

decode-encode_long_example :
    decode (encode (labelled alice_key long_label ∷ [])) ≢ ok (record { records = [] })
decode-encode_long_example =
    decode-encode_long alice_key long_label [] [] ((alice-IsValid.bytes, repeat-IsScalar 43), tt)
      long_label-IsLong (record { records = [] })

abbrev peer_store : TrustedPeerStore
peer_store = record { path = codes "config/trusted"; harden_parent = false }

abbrev new_disk : Disk
new_disk = record { file = missing; temporary = [] }

peer_store-Beside : Beside disk peer_store
unfolding disk lock_path
peer_store-Beside = record { same_parent = refl; apart = λ e. omega (arith, ap length e) }

new_disk-Loadable :
    Loadable disk peer_store
      (disk-Documented peer_store.path)
      ((disk-Documented peer_store.path).entry new_disk)
new_disk-Loadable = inl (disk-entry peer_store.path new_disk)

store_record-Loadable_example :
    Loadable disk peer_store
      (disk-Documented peer_store.path)
      ((disk-Documented peer_store.path).entry (store_record disk peer_store alice new_disk).1)
store_record-Loadable_example =
    store_record-Loadable disk peer_store (disk-Documented peer_store.path) alice new_disk
      peer_store-Beside alice-IsValid new_disk-Loadable

-- The disk after the store.
abbrev stored_disk : Disk
stored_disk = record { file = regular (encode (bob ∷ [])); temporary = encode (bob ∷ []) }

stores : store_record disk peer_store bob new_disk ≡ (ok tt, stored_disk)
unfolding store_record disk ensure_hardened_parent harden_existing_file without encode as_bytes
    encode_char to_string sort_by push_hex create_synced_temporary sync_parent_directory
    Text-discrete ℕ_discrete
stores = refl

store_record-get_example :
    Holding disk peer_store
      (disk-Documented peer_store.path)
      bob.identity
      (some bob)
      ((disk-Documented peer_store.path).entry stored_disk)
store_record-get_example =
    store_record-get disk peer_store (disk-Documented peer_store.path) bob new_disk stored_disk
      peer_store-Beside bob-IsValid stores

-- The disk after the removal.
abbrev removed_disk : Disk
removed_disk = record { file = regular (encode []); temporary = encode [] }
