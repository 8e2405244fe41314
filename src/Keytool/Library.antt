-- ===== src/Keytool/Library.antt =====
-- What pkg/keytool/keytool.go takes from crypto/ed25519, crypto/x509, golang.org/x/crypto/ssh and
-- github.com/cretz/bine/torutil. Keys, certificates and signatures are bytes.
use kothawoc.Prelude.{Bytes, Bool, true, Option, some, ◌≡◌}

-- The private key of a `tor.FromCryptoPrivateKey` pair is `tor_private`, its public key `pair_public`.
-- A parser or generator that can fail returns an `Option`, a marshaller that can fail too. Nothing is assumed of
-- `onion_id_of_public`, for bine's function panics on a key of crypto/ed25519.
pub record Crypto : Type 0 where
  pub tor_private : Bytes → Bytes
  pub pair_public : Bytes → Bytes
  pub tor_public : Bytes → Bytes
  pub from_crypto_public : Bytes → Bytes
  pub crypto_public : Bytes → Bytes
  pub v3_onion_id : Bytes → Bytes
  pub onion_id_of_public : Bytes → Bytes
  pub onion_id_of_private : Bytes → Bytes
  pub parse_onion_id : Bytes → Option Bytes
  pub sign : Bytes → Bytes → Bytes
  pub verify : Bytes → Bytes → Bytes → Bool
  pub generate : Option Bytes
  pub ssh_public : Bytes → Option Bytes
  pub ssh_marshal_authorized : Bytes → Bytes
  pub ssh_marshal_private : Bytes → Option Bytes
  pub pkcs8 : Bytes → Option Bytes
  pub pkix : Bytes → Option Bytes
  pub pem : Bytes → Bytes → Bytes

-- The documented behaviour of those libraries. A key pair has one public key, whichever way it is
-- asked for; an identifier is made of the public key, and that of a pair is read back to it; a signature made by a
-- private key is accepted under its public key.
pub record IsLawful (c : Crypto) : Type 0 where
  pub pair_public_lem : (k : Bytes) → c.pair_public k ≡ c.tor_public (c.tor_private k)
  pub crypto_public_lem :
      (k : Bytes) → c.from_crypto_public (c.crypto_public k) ≡ c.tor_public (c.tor_private k)
  pub onion_id_of_private_lem :
      (k : Bytes) → c.onion_id_of_private k ≡ c.v3_onion_id (c.tor_public k)
  pub parse-v3_onion_id :
      (k : Bytes) → c.parse_onion_id (c.v3_onion_id (c.tor_public k)) ≡ some (c.tor_public k)
  pub verify-sign : (k m : Bytes) → c.verify (c.tor_public k) m (c.sign k m) ≡ true
