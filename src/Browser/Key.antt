-- ===== src/Browser/Key.antt =====
-- `TransientDiscoveryKey` of browser.rs, and the browser's error kinds.
use mathlib.Core.Option
use mathlib.Core.Logic.{inl, inr}
use local_transfer.Prelude.{
  ℕ, ◌+◌, ◌-◌, ◌≤◌, ◌<◌, ◌≡◌, ◌↔◌, refl, ap, sym, ◌∙◌, true, false, not, ◌||◌, ltb, ◌==◌,
  if◌then◌else◌, [], ◌∷◌, ◌++◌, Option, none, some, any, Option-cases, dec_le, any-append, Result,
  ok, err, arith,
}
use local_transfer.Text.{
  Text, Text-discrete, codes, is_control, len_utf8, str_len, eq_ignore_ascii_case,
}

abbrev pub transient_key_suffix : Text
transient_key_suffix = codes "._local-transfer._tcp.local."

abbrev pub max_transient_discovery_key_bytes : ℕ
max_transient_discovery_key_bytes = 255

pub record TransientDiscoveryKey : Type 0 where
  pub value : Text

unfoldable pub Key-discrete : Discrete TransientDiscoveryKey
Key-discrete a b = elim (Text-discrete a.value b.value) [
  | yes e ↦ yes (ap (λ v. record { value = v }) e)
  | no n ↦ no (λ e. n (ap (λ k. k.value) e))
]

pub data DiscoveryBrowserErrorKind : Type 0 where
  initialization browse invalid_transient_key malformed_resolution invalid_port :
      DiscoveryBrowserErrorKind
  endpoint_limit metadata incompatible_protocol daemon stop_browse shutdown :
      DiscoveryBrowserErrorKind

-- `usize::checked_sub`
abbrev pub checked_sub : ℕ → ℕ → Option ℕ
checked_sub a b = if ltb a b then none else some (a - b)

-- `s.get(..n)` with `s.get(n..)`: both fail where `n` is no character boundary.
unfoldable pub split_at : ℕ → Text → Option (Text × Text)
split_at n [] = if n == 0 then some ([], []) else none
split_at n (c ∷ s) =
    let rest = split_at (n - len_utf8 c) s in
    if n == 0
    then some ([], c ∷ s)
    else if ltb n (len_utf8 c)
    then none
    else Option.map (λ p. (c ∷ p.0, p.1)) rest

-- The last test of `new`, at the split that the suffix starts at.
unfoldable pub key_at :
    Text → ℕ → Option (Text × Text) → Result DiscoveryBrowserErrorKind TransientDiscoveryKey
key_at value instance_len none = err invalid_transient_key
key_at value instance_len (some (name, suffix)) =
    if ltb max_transient_discovery_key_bytes (str_len value)
      || not (eq_ignore_ascii_case suffix transient_key_suffix)
      || instance_len == 0
      || any is_control value
    then err invalid_transient_key
    else ok (record { value = name ++ transient_key_suffix })

unfoldable pub new : Text → Result DiscoveryBrowserErrorKind TransientDiscoveryKey
new value = elim (checked_sub (str_len value) (str_len transient_key_suffix)) [
  | none ↦ err invalid_transient_key
  | some instance_len ↦ key_at value instance_len (split_at instance_len value)
]

str_len-append : (s t : Text) → str_len (s ++ t) ≡ str_len s + str_len t
unfolding str_len
str_len-append [] t = ground arith
str_len-append (c ∷ s) t = ground (arith, str_len-append s t)

len_utf8-pos : (c : ℕ) → 0 < len_utf8 c
unfolding len_utf8
len_utf8-pos c = ground arith

split_at-append : (s t : Text) → split_at (str_len s) (s ++ t) ≡ some (s, t)
unfolding split_at str_len
split_at-append [] [] = refl
split_at-append [] (c ∷ t) = refl
split_at-append (c ∷ s) t = ground (arith, len_utf8-pos c, split_at-append s t)

split_at_sound :
    (n : ℕ) (v s t : Text) → split_at n v ≡ some (s, t) → (v ≡ s ++ t) × (str_len s ≡ n)
unfolding split_at str_len
split_at_sound n [] s t h = ground arith
split_at_sound n (c ∷ v) s t h = elim (Option-cases (split_at (n - len_utf8 c) v)) [
  | inl e ↦ ground arith
  | inr (p, e) ↦ ground (arith, split_at_sound (n - len_utf8 c) v p.0 p.1 e)
]

-- What `new` accepts: a name, then the service's suffix in any case.
pub record Accepted (value name suffix : Text) : Type 0 where
  pub parts : value ≡ name ++ suffix
  pub sizes : str_len value ≡ str_len name + str_len transient_key_suffix
  pub canonical : eq_ignore_ascii_case suffix transient_key_suffix ≡ true
  pub has_name : 0 < str_len name
  pub bounded : str_len value ≤ max_transient_discovery_key_bytes
  pub printable : any is_control value ≡ false

key_at-ok :
    (v : Text) (n : ℕ) (name suffix : Text) (k : TransientDiscoveryKey)
    → split_at n v ≡ some (name, suffix)
    → str_len v ≡ n + str_len transient_key_suffix
    → key_at v n (some (name, suffix)) ≡ ok k
    → (k.value ≡ name ++ transient_key_suffix) × Accepted v name suffix
unfolding key_at
key_at-ok v n name suffix k p q h =
    let s = split_at_sound n v name suffix p in
    (
      ground arith,
      record {
        parts = s.0;
        sizes = q ∙ ap (λ m. m + str_len transient_key_suffix) (sym s.1);
        canonical = ground arith;
        has_name = ground (arith, s.1);
        bounded = ground arith;
        printable = ground arith;
      },
    )

new_long :
    (v : Text)
    → str_len transient_key_suffix ≤ str_len v
    → new v
      ≡ key_at v
          (str_len v - str_len transient_key_suffix)
          (split_at (str_len v - str_len transient_key_suffix) v)
unfolding new
new_long v h = ground arith

new_short :
    (v : Text) → str_len v < str_len transient_key_suffix → new v ≡ err invalid_transient_key
unfolding new
new_short v h = ground arith

pub new-ok :
    (v : Text) (k : TransientDiscoveryKey)
    → new v ≡ ok k
    → (name : Text) × (suffix : Text) × (k.value ≡ name ++ transient_key_suffix)
      × Accepted v name suffix
unfolding key_at
new-ok v k h = elim (dec_le (str_len transient_key_suffix) (str_len v)) [
  | no n ↦ absurd (cc (new_short v (omega arith)))
  | yes le ↦ elim (Option-cases (split_at (str_len v - str_len transient_key_suffix) v)) [
    | inl e ↦ absurd (ground (arith, new_long v le))
    | inr ((name, suffix), e) ↦
        let r =
          key_at-ok v (str_len v - str_len transient_key_suffix) name suffix k e (omega arith)
            (rw e at (sym (new_long v le) ∙ h)) in
        (name, suffix, r.0, r.1)
  ]
]

split_at_of_Accepted :
    (v name suffix : Text)
    → Accepted v name suffix
    → split_at (str_len v - str_len transient_key_suffix) v ≡ some (name, suffix)
split_at_of_Accepted v name suffix a =
    ap (λ n. split_at n v) (ground (arith, a.sizes))
    ∙ ap (split_at (str_len name)) a.parts
    ∙ split_at-append name suffix

key_at_of_Accepted :
    (v name suffix : Text) (n : ℕ)
    → Accepted v name suffix
    → n ≡ str_len name
    → key_at v n (some (name, suffix)) ≡ ok (record { value = name ++ transient_key_suffix })
unfolding key_at
key_at_of_Accepted v name suffix n a e =
    ground (arith, a.bounded, a.canonical, a.has_name, a.printable)

pub new_of_Accepted :
    (v name suffix : Text)
    → Accepted v name suffix
    → new v ≡ ok (record { value = name ++ transient_key_suffix })
new_of_Accepted v name suffix a =
    new_long v (ground (arith, a.sizes))
    ∙ rw (split_at_of_Accepted v name suffix a) (
        key_at_of_Accepted v name suffix (str_len v - str_len transient_key_suffix) a
          (ground (arith, a.sizes)))

suffix_printable : any is_control transient_key_suffix ≡ false
unfolding is_control
suffix_printable = refl

Accepted-canonical :
    (v name suffix : Text)
    → Accepted v name suffix
    → Accepted (name ++ transient_key_suffix) name transient_key_suffix
unfolding eq_ignore_ascii_case
Accepted-canonical v name suffix a = record {
  parts = refl;
  sizes = str_len-append name transient_key_suffix;
  canonical = refl;
  has_name = a.has_name;
  bounded = ground (arith, str_len-append name transient_key_suffix, a.sizes, a.bounded);
  printable = ground (
    arith,
    any-append is_control name transient_key_suffix,
    any-append is_control name suffix,
    ap (any is_control) a.parts,
    a.printable,
    suffix_printable,
  );
}

-- The text of a transient key that was accepted, read again, is accepted and gives the same key.
pub new-new : (v : Text) (k : TransientDiscoveryKey) → new v ≡ ok k → new k.value ≡ ok k
new-new v k h =
    let (name, suffix, e, a) = new-ok v k h in
    ap new e
    ∙ new_of_Accepted (name ++ transient_key_suffix) name transient_key_suffix
        (Accepted-canonical v name suffix a)
    ∙ ap (λ t. ok (record { value = t })) (sym e)

-- A text is read as a transient key exactly when it is a name that is not empty and then the
-- suffix of the service in any case, of at most 255 bytes and without control characters; the key
-- is the name with the suffix in canonical form.
pub canonical_iff :
    (v : Text) (k : TransientDiscoveryKey)
    → (new v ≡ ok k) ↔ (
        (name : Text) × (suffix : Text) × (k.value ≡ name ++ transient_key_suffix)
        × Accepted v name suffix)
canonical_iff v k = (
  new-ok v k,
  λ (name, suffix, e, a).
      new_of_Accepted v name suffix a ∙ ap (λ t. ok (record { value = t })) (sym e),
)
