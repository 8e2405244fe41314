-- ===== src/Torutils/Honest.antt =====
-- Two nodes that keep to the protocol accept each other.
use kothawoc.Prelude.{
  ℕ, Bytes, codes, beq_self, Bool, true, [], ◌∷◌, ◌++◌, ◌+◌, ◌*◌, ◌≤◌, length, All, All-append, ◌≡◌,
  ◌≢◌, refl, arith, ap, ◌∙◌, append_assoc, append-nil, length-append,
}
use kothawoc.Text.{split, join}
use kothawoc.Text.Laws.{Lacks, split-part, split-part_sep}
use kothawoc.Keytool
use kothawoc.Keytool.{
  Crypto, IsLawful, EasyEdKey, empty_key, tor_id, tor_priv_key, set_tor_public_key, refused,
}
use kothawoc.Torutils.Hex.{encode, digit, IsByte, decode-encode}
use kothawoc.Torutils.Reading.{got, read_line, read_line_lem}
use kothawoc.Torutils.{
  ok, server_handshake, server_parts, server_last, server_line, checked, space, client_handshake,
  client_parts, client_line, client_last, client_session, or_empty,
}

-- The sizes of keys and signatures of ed25519, and the form of version 3 identifiers.
pub record IsSized (c : Crypto) : Type 0 where
  pub public_length : (k : Bytes) → length (c.tor_public k) ≡ 32
  pub public_IsByte : (k : Bytes) → All IsByte (c.tor_public k)
  pub signature_length : (k m : Bytes) → length (c.sign k m) ≡ 64
  pub signature_IsByte : (k m : Bytes) → All IsByte (c.sign k m)
  pub id_length : (k : Bytes) → length (c.v3_onion_id (c.tor_public k)) ≤ 56
  pub id_Lacks_space : (k : Bytes) → Lacks 32 (c.v3_onion_id (c.tor_public k))
  pub id_Lacks_end : (k : Bytes) → Lacks 10 (c.v3_onion_id (c.tor_public k))

encode-length : (s : Bytes) → length (encode s) ≡ 2 * length s
unfolding encode
encode-length [] = refl
encode-length (b ∷ s) = omega (arith, encode-length s)

encode-Lacks_space : (s : Bytes) → Lacks 32 (encode s)
unfolding encode digit
encode-Lacks_space [] = tt
encode-Lacks_space (b ∷ s) = (ground arith, (ground arith, encode-Lacks_space s))

encode-Lacks_end : (s : Bytes) → Lacks 10 (encode s)
unfolding encode digit
encode-Lacks_end [] = tt
encode-Lacks_end (b ∷ s) = (ground arith, (ground arith, encode-Lacks_end s))

-- A line of four words.
abbrev words3 : Bytes → Bytes → Bytes → Bytes
words3 a b r = a ++ (space ++ (b ++ (space ++ r)))

abbrev words4 : Bytes → Bytes → Bytes → Bytes → Bytes
words4 a b r s = words3 a b r ++ (space ++ s)

words4-append : (a b r s : Bytes) → words4 a b r s ≡ a ++ (32 ∷ (b ++ (32 ∷ (r ++ (32 ∷ s)))))
words4-append a b r s = simp (
  append_assoc a (space ++ (b ++ (space ++ r))) (space ++ s),
  append_assoc b (space ++ r) (space ++ s),
)

split-words4 :
    (a b r s : Bytes)
    → Lacks 32 a
    → Lacks 32 b
    → Lacks 32 r
    → Lacks 32 s
    → split 32 (words4 a b r s) ≡ a ∷ b ∷ r ∷ s ∷ []
split-words4 a b r s ha hb hr hs =
    rw
      (
        words4-append a b r s,
        split-part_sep 32 a (b ++ (32 ∷ (r ++ (32 ∷ s)))) ha,
        split-part_sep 32 b (r ++ (32 ∷ s)) hb,
        split-part_sep 32 r s hr,
        split-part 32 s hs,
      )
      refl

words4-Lacks_end :
    (a b r s : Bytes)
    → Lacks 10 a
    → Lacks 10 b
    → Lacks 10 r
    → Lacks 10 s
    → Lacks 10 (words4 a b r s)
words4-Lacks_end a b r s ha hb hr hs =
    let P : ℕ → Type 0 = λ c. c ≢ 10 in
    All-append P (words3 a b r) (space ++ s)
      (All-append P a _ ha (omega arith, All-append P b _ hb (omega arith, hr))) (omega arith, hs)

words4-length :
    (a b r s : Bytes) → length (words4 a b r s) ≡ length a + length b + length r + length s + 3
words4-length a b r s = omega (
  arith,
  length-append (words3 a b r) (space ++ s),
  length-append a (space ++ (b ++ (space ++ r))),
  length-append b (space ++ r),
)

module _ (c : Crypto) (lawful : IsLawful c) (sized : IsSized c) (e : EasyEdKey)
    (cp sp rnd rnd' : Bytes) where
  open lawful use {pair_public_lem, onion_id_of_private_lem, verify-sign}
  open sized use {
    public_length, public_IsByte, signature_length, signature_IsByte, id_length, id_Lacks_space,
    id_Lacks_end,
  }

  abbrev id : Bytes
  id = c.v3_onion_id (c.tor_public cp)

  -- The three lines of the exchange: the client's, the server's, and the client's again.
  abbrev line1 : Bytes
  line1 =
      words4 (encode (c.tor_public cp)) id (encode rnd)
        (encode (c.sign cp (words3 (encode (c.tor_public cp)) id (encode rnd))))

  abbrev line2 : Bytes
  line2 =
      words4 (encode (c.tor_public sp)) id (encode rnd') (
        encode (c.sign sp (words3 (encode (c.tor_public sp)) id (encode rnd') ++ (space ++ line1))))

  abbrev line3 : Bytes
  line3 = encode (c.sign cp line2)

  -- A key with a private half is named after its public half.
  tor_id-tor_priv_key : tor_priv_key c e ≡ Keytool.ok cp → tor_id c e ≡ Keytool.ok id
  unfolding tor_priv_key tor_id refused
  tor_id-tor_priv_key h =
      ground (arith, pair_public_lem e.ed_key, onion_id_of_private_lem e.tor_priv_key)

  -- A line of a key, the identifier, a nonce and a signature is read whole.
  read_line-words4 :
      (p r q m conn : Bytes)
      → length r ≡ 32
      → read_line []
          (words4 (encode (c.tor_public p)) id (encode r) (encode (c.sign q m)) ++ (10 ∷ conn))
        ≡ got (words4 (encode (c.tor_public p)) id (encode r) (encode (c.sign q m))) conn
  read_line-words4 p r q m conn short =
      let a = encode (c.tor_public p) in
      let s = encode (c.sign q m) in
      read_line_lem [] (words4 a id (encode r) s) conn
        (words4-Lacks_end a id (encode r) s (encode-Lacks_end _) (id_Lacks_end cp)
          (encode-Lacks_end _) (encode-Lacks_end _))
        (omega (
          arith,
          words4-length a id (encode r) s,
          encode-length (c.tor_public p),
          encode-length r,
          encode-length (c.sign q m),
          public_length p,
          signature_length q m,
          id_length cp,
        ))

  split-line :
      (p r q m : Bytes)
      → split 32 (words4 (encode (c.tor_public p)) id (encode r) (encode (c.sign q m)))
        ≡ encode (c.tor_public p) ∷ id ∷ encode r ∷ encode (c.sign q m) ∷ []
  split-line p r q m =
      split-words4 _ _ _ _ (encode-Lacks_space _) (id_Lacks_space cp) (encode-Lacks_space _)
        (encode-Lacks_space _)

  read_line3 : read_line [] (line3 ++ (10 ∷ [])) ≡ got line3 []
  read_line3 =
      read_line_lem [] line3 [] (encode-Lacks_end _)
        (omega (arith, encode-length (c.sign cp line2), signature_length cp line2))

  server_parts_honest :
      (auth : Bytes → Bool)
      → auth (c.tor_public cp) ≡ true
      → server_parts c auth sp rnd' line1
          (encode (c.tor_public cp)
            ∷ id
            ∷ encode rnd
            ∷ encode (c.sign cp (words3 (encode (c.tor_public cp)) id (encode rnd)))
            ∷ [])
          (line3 ++ (10 ∷ []))
        ≡ ((line2 ++ (10 ∷ [])) ++ (codes "OK" ++ (10 ∷ [])), ok (c.tor_public cp))
  unfolding server_parts server_last server_line checked join tor_id set_tor_public_key
  server_parts_honest auth allowed =
      let m1 = words3 (encode (c.tor_public cp)) id (encode rnd) in
      rw
        (
          decode-encode (c.tor_public cp) (public_IsByte cp),
          decode-encode (c.sign cp m1) (signature_IsByte cp m1),
          read_line3,
          decode-encode (c.sign cp line2) (signature_IsByte cp line2),
        )
        (ground (arith, beq_self id, public_length cp, verify-sign cp m1, verify-sign cp line2))

  client_parts_honest :
      client_parts c cp line1 line2
        (encode (c.tor_public sp)
          ∷ id
          ∷ encode rnd'
          ∷ encode
              (c.sign sp (words3 (encode (c.tor_public sp)) id (encode rnd') ++ (space ++ line1)))
          ∷ [])
        (codes "OK" ++ (10 ∷ []))
      ≡ (line3 ++ (10 ∷ []), ok (c.tor_public sp))
  unfolding client_parts client_last checked join read_line
  client_parts_honest =
      let m2 = words3 (encode (c.tor_public sp)) id (encode rnd') ++ (space ++ line1) in
      rw
        (
          decode-encode (c.tor_public sp) (public_IsByte sp),
          decode-encode (c.sign sp m2) (signature_IsByte sp m2),
        )
        (ground (
          arith,
          public_length sp,
          verify-sign sp m2,
          beq_self (codes "OK"),
          append-nil (line3 ++ (10 ∷ [])),
        ))

  client_session_honest :
      length rnd' ≡ 32
      → client_session c cp id rnd (line2 ++ (10 ∷ (codes "OK" ++ (10 ∷ []))))
        ≡ (line1 ++ (10 ∷ (line3 ++ (10 ∷ []))), ok (c.tor_public sp))
  unfolding client_session client_line
  client_session_honest size' =
      let m2 = words3 (encode (c.tor_public sp)) id (encode rnd') ++ (space ++ line1) in
      rw
        (
          client_session,
          read_line-words4 sp rnd' sp m2 (codes "OK" ++ (10 ∷ [])) size',
          split-line sp rnd' sp m2,
          client_parts_honest,
          append_assoc line1 (10 ∷ []) (line3 ++ (10 ∷ [])),
        )
        refl

  -- Where the cryptographic library keeps its laws and sizes, a client whose key has the private half
  -- `cp` and a server with the private key `sp` that both keep to the protocol, with 32 random bytes
  -- each, and whose callback allows the client's key, accept each other: there is an exchange in which
  -- each reads what the other writes, and each returns the other's public key. The address that the
  -- client dialled may be any, and the server's line names the client's identifier.
  pub handshake_completes :
      (auth : Bytes → Bool) (remote_addr : Bytes)
      → tor_priv_key c e ≡ Keytool.ok cp
      → auth (c.tor_public cp) ≡ true
      → length rnd ≡ 32
      → length rnd' ≡ 32
      → (x : Bytes) × (y : Bytes) × (client_handshake c e rnd remote_addr y
          ≡ (x, ok (c.tor_public sp)))
        × (server_handshake c auth sp rnd' x ≡ (y, ok (c.tor_public cp)))
        × (y
            ≡ server_line c sp
                (c.v3_onion_id (c.tor_public cp))
                rnd'
                (client_line c cp (c.v3_onion_id (c.tor_public cp)) rnd)
              ++ (10 ∷ (codes "OK" ++ (10 ∷ []))))
  unfolding client_handshake server_handshake server_line client_line
  handshake_completes auth remote_addr key allowed size size' =
      let m1 = words3 (encode (c.tor_public cp)) id (encode rnd) in
      let y : Bytes = line2 ++ (10 ∷ (codes "OK" ++ (10 ∷ []))) in
      (
        line1 ++ (10 ∷ (line3 ++ (10 ∷ []))),
        line2 ++ (10 ∷ (codes "OK" ++ (10 ∷ []))),
        ap (λ a. client_session c (or_empty a) (or_empty (tor_id c e)) rnd y) key
            ∙ (ap (λ b. client_session c cp (or_empty b) rnd y) (tor_id-tor_priv_key key)
                ∙ client_session_honest size'),
        rw
            (
              server_handshake,
              read_line-words4 cp rnd cp m1 (line3 ++ (10 ∷ [])) size,
              split-line cp rnd cp m1,
              server_parts_honest auth allowed,
              append_assoc line2 (10 ∷ []) (codes "OK" ++ (10 ∷ [])),
            )
            refl,
        refl,
      )
