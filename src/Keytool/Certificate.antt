-- ===== src/Keytool/Certificate.antt =====
-- `CreateCert` of pkg/keytool/keytool.go: a certificate that a private key signs for itself.
use kothawoc.Prelude.{
  ℕ, zero, suc, ◌≡◌, refl, arith, append_assoc, append-nil, Option-cases, inl, inr, Bytes, codes,
  Bool, true, false, Option, none, some, List, [], ◌∷◌, ◌++◌, ◌*◌, ◌^◌, if◌then◌else◌,
}
use mathlib.Core.Path.{subst}
use kothawoc.Prelude.Int.{ℤ, pos, negsuc}
use kothawoc.Serror.{
  sentinel, io_error, no_key, public_key, tor_public_key, tor_private_key,
  failed_to_generate_certificate,
}
use kothawoc.Text.{split}
use kothawoc.Keytool.{
  Crypto, EasyEdKey, Result, ok, private, public, tor_private, tor_public, none_yet, refused,
  wrapped,
}

-- `x509.Certificate`, as far as it differs from one certificate to the next; `signs` is the usage
-- `KeyUsageCertSign`.
pub record Template (Time Ip : Type 0) : Type 0 where
  pub serial : ℕ
  pub not_before : Time
  pub not_after : Time
  pub addresses : List Ip
  pub names : List Bytes
  pub is_ca : Bool
  pub signs : Bool

-- What is used of time, crypto/rand, net and crypto/x509: the time now, `time.Parse`, `Time.Add`,
-- `rand.Int`, `net.ParseIP`, and `x509.CreateCertificate` of a template that stands for itself, a public key
-- and a private one.
pub record Certifier (Time Ip : Type 0) : Type 0 where
  pub now : Time
  pub parse_time : Bytes → Option Time
  pub add_time : Time → ℤ → Time
  pub random_below : ℕ → Option ℕ
  pub parse_ip : Bytes → Option Ip
  pub certify : Template Time Ip → Bytes → Bytes → Option Bytes

abbrev is_zero : ℤ → Bool
is_zero (pos zero) = true
is_zero (pos (suc _)) = false
is_zero (negsuc _) = false

-- A year, in nanoseconds.
abbrev year : ℤ
year = pos (365 * 24 * 3600 * 10 ^ 9)

module _ {Time Ip : Type 0} (x : Certifier Time Ip) where
  -- The loop over the hosts: an address or a name.
  unfoldable pub place_hosts : List Bytes → Template Time Ip → Template Time Ip
  place_hosts [] t = t
  place_hosts (h ∷ hosts) t = place_hosts hosts (elim (x.parse_ip h) [
    | some ip ↦ record t { addresses = t.addresses ++ (ip ∷ []) }
    | none ↦ record t { names = t.names ++ (h ∷ []) }
  ])

  -- When the certificate begins to hold; an empty text stands for now.
  unfoldable pub begins : Bytes → Option Time
  begins [] = some x.now
  begins (b ∷ text) = x.parse_time (b ∷ text)

  -- The template.
  unfoldable pub template : Bool → Bytes → Time → ℤ → ℕ → Template Time Ip
  unfolding place_hosts
  template is_ca host not_before valid_for serial =
      let t = place_hosts (split b',' host) (record {
        serial = serial;
        not_before = not_before;
        not_after = x.add_time not_before valid_for;
        addresses = [];
        names = [];
        is_ca = false;
        signs = false;
      }) in
      if is_ca then record t { is_ca = true; signs = true } else t

  -- `CreateCert` of a private key.
  unfoldable pub self_signed : Crypto → Bytes → Bool → Bytes → Bytes → ℤ → Result Bytes
  unfolding begins template wrapped
  self_signed c key is_ca host valid_from valid_for = elim (begins valid_from) [
    | none ↦ wrapped "CreateCert" 108 failed_to_generate_certificate (sentinel io_error)
    | some not_before ↦ elim (x.random_below (2 ^ 128)) [
      | none ↦ wrapped "CreateCert" 116 failed_to_generate_certificate (sentinel io_error)
      | some serial ↦
          let t = template is_ca host not_before valid_for serial in
          elim (x.certify t (c.crypto_public key) key) [
            | none ↦ wrapped "CreateCert" 145 failed_to_generate_certificate (sentinel io_error)
            | some der ↦ ok (c.pem (codes "CERTIFICATE") der)
          ]
    ]
  ]

  -- `CreateCert`; a duration of 0 stands for a year.
  unfoldable pub create_cert : Crypto → EasyEdKey → Bool → Bytes → Bytes → ℤ → Result Bytes
  unfolding self_signed refused
  create_cert c e is_ca host valid_from valid_for = elim e.key_type [
    | private ↦
        self_signed c e.ed_key is_ca host valid_from (if is_zero valid_for then year else valid_for)
    | public ↦ refused "CreateCert" 81 public_key
    | tor_private ↦ refused "CreateCert" 83 tor_private_key
    | tor_public ↦ refused "CreateCert" 85 tor_public_key
    | none_yet ↦ refused "CreateCert" 87 no_key
  ]

  -- The hosts that are addresses, and those that are names, in their order.
  unfoldable pub addresses_of : List Bytes → List Ip
  addresses_of [] = []
  addresses_of (h ∷ hosts) =
      let more = addresses_of hosts in elim (x.parse_ip h) [ none ↦ more | some ip ↦ ip ∷ more ]

  unfoldable pub names_of : List Bytes → List Bytes
  names_of [] = []
  names_of (h ∷ hosts) =
      let more = names_of hosts in elim (x.parse_ip h) [ none ↦ h ∷ more | some _ ↦ more ]

  place_hosts_lem :
      (hosts : List Bytes) (t : Template Time Ip)
      → place_hosts hosts t ≡ record t {
        addresses = t.addresses ++ addresses_of hosts;
        names = t.names ++ names_of hosts;
      }
  unfolding place_hosts addresses_of names_of
  place_hosts_lem [] t = ground (arith, append-nil t.addresses, append-nil t.names)
  place_hosts_lem (h ∷ hosts) t = elim (Option-cases (x.parse_ip h)) [
    | inl none' ↦ ground (
      arith,
      none',
      place_hosts_lem hosts (record t { names = t.names ++ (h ∷ []) }),
      append_assoc t.names (h ∷ []) (names_of hosts),
    )
    | inr (ip, found) ↦ ground (
      arith,
      found,
      place_hosts_lem hosts (record t { addresses = t.addresses ++ (ip ∷ []) }),
      append_assoc t.addresses (ip ∷ []) (addresses_of hosts),
    )
  ]

  -- A template whose hosts are sorted out.
  abbrev pub placed : Bool → Bytes → Time → ℤ → ℕ → Template Time Ip
  placed is_ca host not_before valid_for serial = record {
    serial = serial;
    not_before = not_before;
    not_after = x.add_time not_before valid_for;
    addresses = addresses_of (split b',' host);
    names = names_of (split b',' host);
    is_ca = is_ca;
    signs = is_ca;
  }

  template_lem :
      (is_ca : Bool) (host : Bytes) (not_before : Time) (valid_for : ℤ) (serial : ℕ)
      → template is_ca host not_before valid_for serial
        ≡ placed is_ca host not_before valid_for serial
  unfolding template
  template_lem true host not_before valid_for serial = rw (place_hosts_lem (split b',' host)) refl
  template_lem false host not_before valid_for serial = rw (place_hosts_lem (split b',' host)) refl

  self_signed-ok :
      (c : Crypto) (key : Bytes) (is_ca : Bool) (host valid_from cert : Bytes) (valid_for : ℤ)
      → self_signed c key is_ca host valid_from valid_for ≡ ok cert
      → (not_before : Time) × (serial : ℕ) × (der : Bytes) × (begins valid_from ≡ some not_before)
        × (x.random_below (2 ^ 128) ≡ some serial)
        × (x.certify (placed is_ca host not_before valid_for serial) (c.crypto_public key) key
            ≡ some der)
        × (cert ≡ c.pem (codes "CERTIFICATE") der)
  unfolding self_signed wrapped
  self_signed-ok c key is_ca host valid_from cert valid_for h =
      elim (Option-cases (begins valid_from)) [
        | inl never ↦ absurd (ground (arith, h, never))
        | inr (not_before, from) ↦ elim (Option-cases (x.random_below (2 ^ 128))) [
          | inl dry ↦ absurd (ground (arith, h, from, dry))
          | inr (serial, drawn) ↦
              let t = template is_ca host not_before valid_for serial in
              let same = template_lem is_ca host not_before valid_for serial in
              elim (Option-cases (x.certify t (c.crypto_public key) key)) [
                | inl failed ↦ absurd (ground (arith, h, from, drawn, failed))
                | inr (der, made) ↦ (
                  not_before,
                  serial,
                  der,
                  from,
                  drawn,
                  subst (λ u. x.certify u (c.crypto_public key) key ≡ some der) same made,
                  ground (arith, h, from, drawn, made),
                )
              ]
        ]
      ]

  -- Where `CreateCert` gives a certificate, the key is a private one of crypto/ed25519, and the certificate is
  -- what that key signs of a template for its own public half: with a random number below 2^128, from the time
  -- that is asked for, or now, for the time that is asked for, or a year, with every host between the commas
  -- once and in order, the addresses among the addresses and all others among the names; it may sign others if
  -- and only if it is one of a CA.
  pub create_cert-ok :
      (c : Crypto) (e : EasyEdKey) (is_ca : Bool) (host valid_from cert : Bytes) (valid_for : ℤ)
      → create_cert c e is_ca host valid_from valid_for ≡ ok cert
      → (e.key_type ≡ private)
        × ((not_before : Time) × (serial : ℕ) × (der : Bytes) × (begins valid_from
              ≡ some not_before)
            × (x.random_below (2 ^ 128) ≡ some serial)
            × (x.certify
                  (placed is_ca host not_before
                    (if is_zero valid_for then year else valid_for)
                    serial)
                  (c.crypto_public e.ed_key)
                  e.ed_key
                ≡ some der)
            × (cert ≡ c.pem (codes "CERTIFICATE") der))
  unfolding create_cert refused
  create_cert-ok c e is_ca host valid_from cert valid_for h =
      let key : e.key_type ≡ private = ground (arith, h) in
      (
        key,
        self_signed-ok c e.ed_key is_ca host valid_from cert
            (if is_zero valid_for then year else valid_for) (ground (arith, h, key)),
      )
