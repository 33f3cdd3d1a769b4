-- ===== src/Advertisement/Spec.antt =====
-- `ServiceSpec::new` of advertisement.rs on the metadata of a device.
use local_transfer.Prelude.{
  ℕ, ◌≡◌, ◌∙◌, ◌≤◌, ap, ℕ_discrete, refl, ok, err, Option, none, some, [], ◌∷◌, ◌++◌, le→ltb_false,
  List, arith, All, All-map, inl,
}
use local_transfer.Prelude.Table.{Table, insert}
use local_transfer.Text.{Text, Text-discrete, IsScalar}
use local_transfer.Text.Utf8.{as_bytes, from_utf8-as_bytes}
use local_transfer.Text.Decimal.{to_string, to_string_digits}
use local_transfer.Discovery.Metadata.{
  DiscoveryMetadata, DiscoveryTxtEntry, to_txt_entries, total_size, emitted, DiscoveryPlatformHint,
  mac_os, windows, linux, hint_as_str, name_entries, platform_entries, key_discovery_version,
  key_protocol_min, key_protocol_max, key_name, key_platform,
}
use local_transfer.Discovery.NameHint.{DiscoveryNameHint}
use local_transfer.Discovery.Metadata.RoundTrip.{IsValid, NameIsValid, small_entries}
use local_transfer.Advertisement.{
  new_config, new_spec, collect_properties, text_value, ServiceSpec, SessionIdentity,
  DiscoveryAdvertisementConfig, discovery_service_type, local_domain_suffix,
}

-- The entries that the properties are, value and bytes.
abbrev pub entries_of : Table Text Text → List DiscoveryTxtEntry
entries_of [] = []
entries_of ((key, value) ∷ rest) = emitted key (as_bytes value) ∷ entries_of rest

abbrev name_property : Option DiscoveryNameHint → Table Text Text
name_property none = []
name_property (some name) = (key_name, name.value) ∷ []

abbrev platform_property : Option DiscoveryPlatformHint → Table Text Text
platform_property none = []
platform_property (some platform) = (key_platform, hint_as_str platform) ∷ []

abbrev insert_platform : Option DiscoveryPlatformHint → Table Text Text → Table Text Text
insert_platform none t = t
insert_platform (some platform) t = insert Text-discrete key_platform (hint_as_str platform) t

abbrev required : Text → Text → Text → Table Text Text
required v a b = (key_discovery_version, v) ∷ (key_protocol_min, a) ∷ (key_protocol_max, b) ∷ []

abbrev properties_of : DiscoveryMetadata → Table Text Text
properties_of m =
    required (to_string 1) (to_string m.protocols.min) (to_string m.protocols.max)
    ++ (name_property m.name ++ platform_property m.platform)

abbrev spec_of : DiscoveryMetadata → ℕ → SessionIdentity → ServiceSpec
spec_of m port identity = record {
  service_type = discovery_service_type ++ local_domain_suffix;
  instance_name = identity.label;
  hostname = identity.label ++ local_domain_suffix;
  port = port;
  properties = properties_of m;
}

-- The configuration and the description of the service, which are made without an error.
abbrev pub Advertised : Type 0 → DiscoveryMetadata → ℕ → SessionIdentity → Type 0
Advertised S m port identity =
    (config : DiscoveryAdvertisementConfig) × (spec : ServiceSpec) × (new_config S m port
      ≡ ok config)
    × (new_spec S config identity ≡ ok spec)
    × (spec.port ≡ port)
    × (entries_of spec.properties ≡ to_txt_entries m)

hint-IsScalar : (p : DiscoveryPlatformHint) → All IsScalar (hint_as_str p)
hint-IsScalar mac_os = (
  inl (omega arith),
  (inl (omega arith), (inl (omega arith), (inl (omega arith), (inl (omega arith), tt)))),
)
hint-IsScalar windows = (
  inl (omega arith),
  (
    inl (omega arith),
    (
      inl (omega arith),
      (inl (omega arith), (inl (omega arith), (inl (omega arith), (inl (omega arith), tt)))),
    ),
  ),
)
hint-IsScalar linux = (
  inl (omega arith),
  (inl (omega arith), (inl (omega arith), (inl (omega arith), (inl (omega arith), tt)))),
)

module _ (S : Type 0) where
  text_value-as_bytes :
      (key value : Text)
      → All IsScalar value
      → text_value S (emitted key (as_bytes value)) ≡ ok value
  unfolding text_value
  text_value-as_bytes key value h = rw (from_utf8-as_bytes value h) refl

  text_value_decimal :
      (key : Text) (n : ℕ) → text_value S (emitted key (as_bytes (to_string n))) ≡ ok (to_string n)
  text_value_decimal key n =
      text_value-as_bytes key (to_string n)
        (All-map (to_string n) (λ c d. inl (omega arith)) (to_string_digits n))

  text_value_hint :
      (p : DiscoveryPlatformHint)
      → text_value S (emitted key_platform (as_bytes (hint_as_str p))) ≡ ok (hint_as_str p)
  text_value_hint p = text_value-as_bytes key_platform (hint_as_str p) (hint-IsScalar p)

  -- An entry whose value is text adds its property.
  collect_text :
      (entry : DiscoveryTxtEntry) (rest : List DiscoveryTxtEntry) (t : Table Text Text)
      (value : Text)
      → text_value S entry ≡ ok value
      → collect_properties S (entry ∷ rest) t
        ≡ collect_properties S rest (insert Text-discrete entry.key value t)
  unfolding collect_properties
  collect_text entry rest t value h =
      ap
        (λ r. elim r [
          | err e ↦ err e
          | ok v ↦ collect_properties S rest (insert Text-discrete entry.key v t)
        ])
        h

  collect_platform :
      (p : Option DiscoveryPlatformHint) (t : Table Text Text)
      → insert_platform p t ≡ t ++ platform_property p
      → collect_properties S (platform_entries p) t ≡ ok (t ++ platform_property p)
  unfolding collect_properties
  collect_platform none t h = ap (λ t. ok t) h
  collect_platform (some p) t h = collect_text _ [] t _ (text_value_hint p) ∙ ap (λ t. ok t) h

  collect_optional :
      (n : Option DiscoveryNameHint) (p : Option DiscoveryPlatformHint) (v a b : Text)
      → NameIsValid n
      → collect_properties S (name_entries n ++ platform_entries p) (required v a b)
        ≡ ok (required v a b ++ (name_property n ++ platform_property p))
  unfolding insert Text-discrete ℕ_discrete
  collect_optional none none v a b h = collect_platform none (required v a b) refl
  collect_optional none (some p) v a b h = collect_platform (some p) (required v a b) refl
  collect_optional (some n) none v a b h =
      collect_text (emitted key_name (as_bytes n.value)) [] (required v a b) n.value
        (text_value-as_bytes key_name n.value h.0)
      ∙ collect_platform none (required v a b ++ name_property (some n)) refl
  collect_optional (some n) (some p) v a b h =
      collect_text (emitted key_name (as_bytes n.value)) (platform_entries (some p))
        (required v a b) n.value (text_value-as_bytes key_name n.value h.0)
      ∙ collect_platform (some p) (required v a b ++ name_property (some n)) refl

  collect_emitted :
      (m : DiscoveryMetadata)
      → IsValid m
      → collect_properties S (to_txt_entries m) [] ≡ ok (properties_of m)
  unfolding to_txt_entries insert Text-discrete ℕ_discrete
  collect_emitted m v =
      collect_text _ _ [] _ (text_value_decimal key_discovery_version 1)
      ∙ collect_text _ _ _ _ (text_value_decimal key_protocol_min m.protocols.min)
      ∙ collect_text _ _ _ _ (text_value_decimal key_protocol_max m.protocols.max)
      ∙ collect_optional m.name m.platform _ _ _ v.named

entries_optional :
    (n : Option DiscoveryNameHint) (p : Option DiscoveryPlatformHint)
    → entries_of (name_property n ++ platform_property p) ≡ name_entries n ++ platform_entries p
entries_optional none none = refl
entries_optional none (some p) = refl
entries_optional (some n) none = refl
entries_optional (some n) (some p) = refl

entries_of-properties_of : (m : DiscoveryMetadata) → entries_of (properties_of m) ≡ to_txt_entries m
unfolding to_txt_entries
entries_of-properties_of m =
    ap
      (λ rest.
        emitted key_discovery_version (as_bytes (to_string 1))
        ∷ emitted key_protocol_min (as_bytes (to_string m.protocols.min))
        ∷ emitted key_protocol_max (as_bytes (to_string m.protocols.max))
        ∷ rest)
      (entries_optional m.name m.platform)

module _ (S : Type 0) where
  -- Metadata whose range is of u16 in order, and whose name, if any, is text that the name hint
  -- accepts, is advertised on every port but zero: the configuration and the description of the
  -- service are made without an error, with that port, and the properties of the service are the
  -- TXT entries of the metadata.
  pub new_spec-Advertised :
      (m : DiscoveryMetadata) (port : ℕ) (identity : SessionIdentity)
      → IsValid m
      → 1 ≤ port
      → Advertised S m port identity
  unfolding new_config new_spec
  new_spec-Advertised m port identity v h = (
    record { metadata = m; port = port },
    spec_of m port identity,
    ground arith,
    rw
        (
          le→ltb_false 512 (total_size (to_txt_entries m) 0) (small_entries m v),
          collect_emitted S m v,
        )
        refl,
    refl,
    entries_of-properties_of m,
  )
