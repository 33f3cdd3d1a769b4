-- ===== src/Advertisement.antt =====
-- crates/local-transfer-core/src/advertisement.rs: the configuration, the description of the service
-- and the session over any backend.
pub mod Spec
pub mod Session
use local_transfer.Prelude.{
  ℕ, ltb, ◌==◌, if◌then◌else◌, List, [], ◌∷◌, ◌++◌, Option, none, some, Bytes, Result, ok, err,
  ◌>>=◌, Bool, true, false,
}
use local_transfer.Prelude.Table.{Table, insert}
use local_transfer.Text.{Text, Text-discrete, codes}
use local_transfer.Text.Utf8.{from_utf8}
use local_transfer.Discovery.Metadata.{
  DiscoveryMetadata, DiscoveryTxtEntry, to_txt_entries, total_size, max_discovery_txt_bytes,
}

abbrev pub local_domain_suffix : Text
local_domain_suffix = codes ".local."

abbrev pub discovery_service_type : Text
discovery_service_type = codes "_local-transfer._tcp"

pub data DiscoveryAdvertisementErrorKind : Type 0 where
  invalid_port metadata_encoding daemon_startup service_construction :
      DiscoveryAdvertisementErrorKind
  registration daemon unregister shutdown : DiscoveryAdvertisementErrorKind

-- The boxed cause: bytes that are not UTF-8, or an error of the mDNS library.
pub data ErrorSource (S : Type 0) : Type 0 where
  from_utf8_error : Bytes → ErrorSource S
  library_error : S → ErrorSource S

pub record DiscoveryAdvertisementError (S : Type 0) : Type 0 where
  pub kind : DiscoveryAdvertisementErrorKind
  pub source : Option (ErrorSource S)

module _ {S : Type 0} where
  abbrev pub without_source : DiscoveryAdvertisementErrorKind → DiscoveryAdvertisementError S
  without_source kind = record { kind = kind; source = none }

  abbrev pub with_source :
      DiscoveryAdvertisementErrorKind → ErrorSource S → DiscoveryAdvertisementError S
  with_source kind source = record { kind = kind; source = some source }

pub record DiscoveryAdvertisementConfig : Type 0 where
  pub metadata : DiscoveryMetadata
  pub port : ℕ

pub record ServiceSpec : Type 0 where
  pub service_type : Text
  pub instance_name : Text
  pub hostname : Text
  pub port : ℕ
  pub properties : Table Text Text

pub record SessionIdentity : Type 0 where
  pub label : Text

module _ (S : Type 0) where
  -- `DiscoveryAdvertisementConfig::new`
  unfoldable pub new_config :
      DiscoveryMetadata → ℕ → Result (DiscoveryAdvertisementError S) DiscoveryAdvertisementConfig
  new_config metadata port =
      if port == 0
      then err (without_source invalid_port)
      else ok (record { metadata = metadata; port = port })

  text_or_error : Bytes → Option Text → Result (DiscoveryAdvertisementError S) Text
  text_or_error bytes none = err (with_source metadata_encoding (from_utf8_error bytes))
  text_or_error bytes (some text) = ok text

  -- The closure of `map`.
  unfoldable pub text_value : DiscoveryTxtEntry → Result (DiscoveryAdvertisementError S) Text
  unfolding text_or_error
  text_value entry = text_or_error entry.value (from_utf8 entry.value)

  -- `map` and `collect` into the `HashMap`.
  unfoldable pub collect_properties :
      List DiscoveryTxtEntry
      → Table Text Text
      → Result (DiscoveryAdvertisementError S) (Table Text Text)
  unfolding text_value
  collect_properties [] properties = ok properties
  collect_properties (entry ∷ entries) properties = elim (text_value entry) [
    | err e ↦ err e
    | ok value ↦ collect_properties entries (insert Text-discrete entry.key value properties)
  ]

  -- `ServiceSpec::new`
  unfoldable pub new_spec :
      DiscoveryAdvertisementConfig
      → SessionIdentity
      → Result (DiscoveryAdvertisementError S) ServiceSpec
  unfolding collect_properties
  new_spec config identity =
      let entries = to_txt_entries config.metadata in
      if ltb max_discovery_txt_bytes (total_size entries 0)
      then err (without_source metadata_encoding)
      else do
        properties ← collect_properties entries []
        ok (record {
          service_type = discovery_service_type ++ local_domain_suffix;
          instance_name = identity.label;
          hostname = identity.label ++ local_domain_suffix;
          port = config.port;
          properties = properties;
        })

unfoldable pub fullname : ServiceSpec → Text
fullname spec = spec.instance_name ++ codes "." ++ spec.service_type

-- The trait `AdvertisementBackend`: each call may change the backend.
pub record AdvertisementBackend (S B : Type 0) : Type 0 where
  pub stop : B → Result (DiscoveryAdvertisementError S) (Unit {0}) × B
  pub best_effort_stop : B → B

pub record AdvertisementSession (B : Type 0) : Type 0 where
  pub spec : ServiceSpec
  pub backend : B
  pub active : Bool

-- `Drop`
module _ (S : Type 0) {B : Type 0} ⦃i : AdvertisementBackend S B⦄ where
  unfoldable pub drop : AdvertisementSession B → AdvertisementSession B
  drop s = if s.active then record s { backend = i.best_effort_stop s.backend } else s

module _ {S B : Type 0} where
  -- The session over the backend that `start_backend` gave.
  abbrev with_backend :
      ServiceSpec
      → Result (DiscoveryAdvertisementError S) B
      → Result (DiscoveryAdvertisementError S) (AdvertisementSession B)
  with_backend spec (err e) = err e
  with_backend spec (ok backend) = ok (record { spec = spec; backend = backend; active = true })

  unfoldable pub start :
      ServiceSpec
      → (ServiceSpec → Result (DiscoveryAdvertisementError S) B)
      → Result (DiscoveryAdvertisementError S) (AdvertisementSession B)
  start spec start_backend = with_backend spec (start_backend spec)

module _ {S B : Type 0} ⦃i : AdvertisementBackend S B⦄ where
  abbrev pub stop_active :
      ServiceSpec
      → Result (DiscoveryAdvertisementError S) (Unit {0}) × B
      → Result (DiscoveryAdvertisementError S) (Unit {0}) × AdvertisementSession B
  stop_active spec (err e, b) = (err e, record { spec = spec; backend = b; active = true })
  stop_active spec (ok u, b) = (ok tt, record { spec = spec; backend = b; active = false })

  abbrev pub stop_if :
      Bool
      → AdvertisementSession B
      → Result (DiscoveryAdvertisementError S) (Unit {0}) × AdvertisementSession B
  stop_if false s = (ok tt, s)
  stop_if true s = stop_active s.spec (i.stop s.backend)

  unfoldable pub stop :
      AdvertisementSession B
      → Result (DiscoveryAdvertisementError S) (Unit {0}) × AdvertisementSession B
  stop s = stop_if s.active s
