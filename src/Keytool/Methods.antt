-- ===== src/Keytool/Methods.antt =====
-- pkg/keytool/keytool.go: the methods of `EasyEdKey` that use the libraries.
use kothawoc.Prelude.{ℕ, Bytes, codes, Bool, none, some}
use kothawoc.Serror.{
  sentinel, serror, io_error, no_key, public_key, tor_public_key, tor_private_key, invalid_key,
  invalid_public_key, invalid_ssh_public_key, invalid_tor_id,
}
use kothawoc.Keytool.Library.{Crypto}
use kothawoc.Keytool.Key.{
  EasyEdKey, private, public, tor_private, tor_public, none_yet, Result, ok, err, at, refused,
  wrapped, from_library, set_private_key, set_tor_public_key,
}

module _ (c : Crypto) where
  -- `TorId`
  unfoldable pub tor_id : EasyEdKey → Result Bytes
  unfolding refused
  tor_id e = elim e.key_type [
    | private ↦ ok (c.v3_onion_id (c.pair_public e.ed_key))
    | public ↦ ok (c.onion_id_of_public e.ed_pub)
    | tor_private ↦ ok (c.onion_id_of_private e.tor_priv_key)
    | tor_public ↦ ok (c.v3_onion_id e.tor_pub_key)
    | none_yet ↦ refused "TorId" 223 no_key
  ]

  -- `TorPrivKey`
  unfoldable pub tor_priv_key : EasyEdKey → Result Bytes
  unfolding refused
  tor_priv_key e = elim e.key_type [
    | private ↦ ok (c.tor_private e.ed_key)
    | public ↦ refused "TorPrivKey" 232 public_key
    | tor_private ↦ ok e.tor_priv_key
    | tor_public ↦ refused "TorPrivKey" 236 tor_public_key
    | none_yet ↦ refused "TorPrivKey" 238 no_key
  ]

  -- `TorPubKey`
  unfoldable pub tor_pub_key : EasyEdKey → Result Bytes
  unfolding refused
  tor_pub_key e = elim e.key_type [
    | private ↦ ok (c.tor_public (c.tor_private e.ed_key))
    | public ↦ ok (c.from_crypto_public e.ed_pub)
    | tor_private ↦ ok (c.tor_public e.tor_priv_key)
    | tor_public ↦ ok e.tor_pub_key
    | none_yet ↦ refused "TorPubKey" 253 no_key
  ]

  -- `PubKey`
  unfoldable pub pub_key : EasyEdKey → Result Bytes
  unfolding refused
  pub_key e = elim e.key_type [
    | private ↦ ok (c.crypto_public e.ed_key)
    | public ↦ ok e.ed_pub
    | tor_private ↦ refused "PubKey" 264 tor_private_key
    | tor_public ↦ refused "PubKey" 266 tor_public_key
    | none_yet ↦ refused "PubKey" 268 no_key
  ]

  -- `SetTorId`
  unfoldable pub set_tor_id : Bytes → EasyEdKey → Result (Unit {0}) × EasyEdKey
  unfolding wrapped set_tor_public_key
  set_tor_id id e = elim (c.parse_onion_id id) [
    | none ↦ (wrapped "SetTorId" 174 invalid_tor_id (sentinel io_error), e)
    | some p ↦ (ok tt, set_tor_public_key p e)
  ]

  -- `SshPubKey`
  unfoldable pub ssh_pub_key : EasyEdKey → Result Bytes
  unfolding refused wrapped from_library
  ssh_pub_key e = elim e.key_type [
    | private ↦
        from_library (c.ssh_public (c.crypto_public e.ed_key))
          (wrapped "SshPubKey" 277 invalid_key (sentinel io_error)) (λ a. a)
    | public ↦
        from_library (c.ssh_public e.ed_pub)
          (wrapped "SshPubKey" 283 invalid_public_key (sentinel io_error)) (λ a. a)
    | tor_private ↦ refused "SshPubKey" 287 tor_private_key
    | tor_public ↦ refused "SshPubKey" 289 tor_public_key
    | none_yet ↦ refused "SshPubKey" 291 no_key
  ]

  -- `SshAuthorizedKey`
  unfoldable pub ssh_authorized_key : EasyEdKey → Result Bytes
  unfolding ssh_pub_key
  ssh_authorized_key e = elim (ssh_pub_key e) [
    | ok k ↦ ok (c.ssh_marshal_authorized k)
    | err x ↦ wrapped "SshAuthorizedKey" 298 invalid_ssh_public_key x
  ]

  -- `SshPrivateKey`
  unfoldable pub ssh_private_key : EasyEdKey → Result Bytes
  unfolding refused from_library
  ssh_private_key e = elim e.key_type [
    | private ↦
        from_library (c.ssh_marshal_private e.ed_key) (refused "SshPrivateKey" 309 io_error)
          (c.pem (codes "OPENSSH PRIVATE KEY"))
    | public ↦ refused "SshPrivateKey" 313 public_key
    | tor_private ↦ refused "SshPrivateKey" 315 tor_private_key
    | tor_public ↦ refused "SshPrivateKey" 317 tor_public_key
    | none_yet ↦ refused "SshPrivateKey" 319 no_key
  ]

  -- `MarshalPrivateKey`
  unfoldable pub marshal_private_key : EasyEdKey → Result Bytes
  unfolding refused wrapped from_library
  marshal_private_key e = elim e.key_type [
    | private ↦
        from_library (c.pkcs8 e.ed_key)
          (wrapped "MarshalPrivateKey" 344 invalid_key (sentinel io_error))
          (c.pem (codes "PRIVATE KEY"))
    | public ↦ refused "MarshalPrivateKey" 350 public_key
    | tor_private ↦ refused "MarshalPrivateKey" 352 tor_private_key
    | tor_public ↦ refused "MarshalPrivateKey" 354 tor_public_key
    | none_yet ↦ refused "MarshalPrivateKey" 356 no_key
  ]

  -- `MarshalPublicKey`
  unfoldable pub marshal_public_key : EasyEdKey → Result Bytes
  unfolding refused wrapped from_library
  marshal_public_key e = elim e.key_type [
    | private ↦
        from_library (c.pkix (c.crypto_public e.ed_key))
          (wrapped "MarshalPublicKey" 366 invalid_public_key (sentinel io_error))
          (c.pem (codes "PUBLIC KEY"))
    | public ↦
        from_library (c.pkix e.ed_pub)
          (wrapped "MarshalPublicKey" 374 invalid_public_key (sentinel io_error))
          (c.pem (codes "PUBLIC KEY"))
    | tor_private ↦ refused "MarshalPublicKey" 380 tor_private_key
    | tor_public ↦ refused "MarshalPublicKey" 382 tor_public_key
    | none_yet ↦ refused "MarshalPublicKey" 384 no_key
  ]

  -- `GenerateKey`; its callers `New` and `CreatePrivateKey` drop the error.
  unfoldable pub generate_key : EasyEdKey → Result (Unit {0}) × EasyEdKey
  unfolding refused set_private_key
  generate_key e = elim c.generate [
    | none ↦ (refused "GenerateKey" 331 io_error, e)
    | some k ↦ (ok tt, set_private_key k e)
  ]

  -- `New`
  unfoldable pub new_key : EasyEdKey → EasyEdKey
  unfolding generate_key
  new_key e = (generate_key e).1

  -- What `TorSign` does with the result of `TorPrivKey`, at a line of its own.
  unfoldable pub sign_with : ℕ → Bytes → Result Bytes → Result Bytes
  sign_with line m (ok k) = ok (c.sign k m)
  sign_with line m (err x) = err (serror (at "TorSign" line) x)

  -- `TorSign`
  unfoldable pub tor_sign : Bytes → EasyEdKey → Result Bytes
  unfolding sign_with tor_priv_key
  tor_sign m e = elim e.key_type [
    | private ↦ sign_with 448 m (tor_priv_key e)
    | public ↦ refused "TorSign" 452 public_key
    | tor_private ↦ sign_with 456 m (tor_priv_key e)
    | tor_public ↦ refused "TorSign" 460 tor_public_key
    | none_yet ↦ refused "TorSign" 462 no_key
  ]

  -- What `TorVerify` does with the result of `TorPubKey`.
  unfoldable pub verify_with : ℕ → Bytes → Bytes → Result Bytes → Result Bool
  verify_with line signature m (ok k) = ok (c.verify k m signature)
  verify_with line signature m (err x) = err (serror (at "TorVerify" line) x)

  -- `TorVerify`
  unfoldable pub tor_verify : Bytes → Bytes → EasyEdKey → Result Bool
  unfolding verify_with tor_pub_key
  tor_verify signature m e = elim e.key_type [
    | private ↦ verify_with 472 signature m (tor_pub_key e)
    | public ↦ verify_with 478 signature m (tor_pub_key e)
    | tor_private ↦ verify_with 484 signature m (tor_pub_key e)
    | tor_public ↦ verify_with 490 signature m (tor_pub_key e)
    | none_yet ↦ refused "TorVerify" 494 no_key
  ]
