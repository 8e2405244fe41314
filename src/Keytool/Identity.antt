-- ===== src/Keytool/Identity.antt =====
-- The identifier of a key, its public half, and the signatures it makes.
use kothawoc.Prelude.{Bytes, true, none, some, [], ◌≢◌, ◌≡◌, refl, arith, ◌⊎◌, inl, inr}
use kothawoc.Keytool.{
  Crypto, IsLawful, EasyEdKey, private, tor_private, ok, tor_id, tor_pub_key, tor_sign, tor_verify,
  set_tor_id, parse_key, tor_priv_key, refused,
}

-- Does the key have a private half that signs?
abbrev pub IsPrivate : EasyEdKey → Type 0
IsPrivate e = (e.key_type ≡ private) ⊎ (e.key_type ≡ tor_private)

module _ (c : Crypto) (lawful : IsLawful c) where
  open lawful use {
    pair_public_lem, crypto_public_lem, onion_id_of_private_lem, parse-v3_onion_id, verify-sign,
  }

  -- Where the cryptographic library keeps its laws, a key with a private half signs every message; the
  -- signature is accepted by the key itself, and by the key that another node rebuilds from the
  -- signer's Tor identifier alone, whatever that node's key held before.
  pub tor_verify-tor_sign :
      (e d : EasyEdKey) (m id : Bytes)
      → IsPrivate e
      → tor_id c e ≡ ok id
      → (s : Bytes) × (tor_sign c m e ≡ ok s)
        × (tor_verify c s m e ≡ ok true)
        × (tor_verify c s m (set_tor_id c id d).1 ≡ ok true)
  unfolding tor_id tor_sign tor_verify tor_pub_key tor_priv_key set_tor_id
  tor_verify-tor_sign e d m id (inl kind) h =
      let k = c.tor_private e.ed_key in
      let v = verify-sign k m in
      (
        c.sign k m,
        ground arith,
        ground (arith, v),
        ground (arith, v, pair_public_lem e.ed_key, parse-v3_onion_id k),
      )
  tor_verify-tor_sign e d m id (inr kind) h =
      let k = e.tor_priv_key in
      let v = verify-sign k m in
      (
        c.sign k m,
        ground arith,
        ground (arith, v),
        ground (arith, v, onion_id_of_private_lem k, parse-v3_onion_id k),
      )

-- Only a key with a private half signs.
pub tor_sign-IsPrivate :
    (c : Crypto) (e : EasyEdKey) (m s : Bytes) → tor_sign c m e ≡ ok s → IsPrivate e
unfolding tor_sign refused
tor_sign-IsPrivate c e m s h = ground arith

-- `ParseKey` never succeeds. Bytes that are no EC key leave the key alone; an EC key erases the
-- private key that was held and leaves the kind as it was.
pub parse_key_fails :
    (ec : Bytes) (e : EasyEdKey)
    → ((parse_key none e).0 ≢ ok tt)
      × ((parse_key none e).1 ≡ e)
      × ((parse_key (some ec) e).0 ≢ ok tt)
      × ((parse_key (some ec) e).1 ≡ record e { ed_key = [] })
unfolding parse_key refused
parse_key_fails ec e = (λ h. cc, refl, λ h. cc, refl)
