-- ===== src/Tests/Handshake.antt =====
-- Two nodes that meet.
use kothawoc.Prelude.{
  ℕ, zero, suc, Bytes, codes, beq, beq_self, Bool, true, some, [], ◌∷◌, ◌++◌, ◌≡◌, refl, arith,
}
use kothawoc.Keytool
use kothawoc.Keytool.{Crypto, IsLawful, EasyEdKey, empty_key, tor_private}
use kothawoc.Torutils.{
  ok, client_session, client_handshake, server_handshake, client_line, server_line,
}
use kothawoc.Torutils.Hex.{encode, decode}
use kothawoc.Torutils.Reading.{with_more, read_line, read_line-bound}
use kothawoc.Torutils.Honest.{IsSized, handshake_completes}
use kothawoc.Torutils.Authentic.{
  Accepted, server_handshake-Accepted, Trusted, client_session-Trusted,
}

-- A key of 32 bytes that every pair shares, and a signature of 64.
abbrev pub shared : Bytes
shared = codes "aaaaaaaaaaaaaaaaaaaaaaaaaaaaaaaa"

abbrev pub seal : Bytes
seal = shared ++ shared

abbrev pub sealing : Crypto
sealing = record {
  tor_private = λ k. k;
  pair_public = λ k. shared;
  tor_public = λ k. shared;
  from_crypto_public = λ p. p;
  crypto_public = λ k. shared;
  v3_onion_id = λ p. p;
  onion_id_of_public = λ p. p;
  onion_id_of_private = λ k. shared;
  parse_onion_id = λ i. some i;
  sign = λ k m. seal;
  verify = λ p m s. beq s seal;
  generate = some (codes "k");
  ssh_public = λ k. some k;
  ssh_marshal_authorized = λ k. k;
  ssh_marshal_private = λ k. some k;
  pkcs8 = λ k. some k;
  pkix = λ k. some k;
  pem = λ t b. t ++ b;
}

pub sealing-IsLawful : IsLawful sealing
sealing-IsLawful = record {
  pair_public_lem = λ k. refl;
  crypto_public_lem = λ k. refl;
  onion_id_of_private_lem = λ k. refl;
  parse-v3_onion_id = λ k. refl;
  verify-sign = λ k m. beq_self seal;
}

pub sealing-IsSized : IsSized sealing
sealing-IsSized = record {
  public_length = λ k. refl;
  public_IsByte = λ k. ground arith;
  signature_length = λ k m. refl;
  signature_IsByte = λ k m. ground arith;
  id_length = λ k. omega arith;
  id_Lacks_space = λ k. ground arith;
  id_Lacks_end = λ k. ground arith;
}

abbrev pub client_key : EasyEdKey
client_key = record empty_key { tor_priv_key = codes "c"; key_type = tor_private }

abbrev anyone : Bytes → Bool
anyone key = true

handshake_completes_example :
    (x : Bytes) × (y : Bytes) × (client_handshake sealing client_key shared (codes "elsewhere") y
      ≡ (x, ok shared))
    × (server_handshake sealing anyone (codes "s") shared x ≡ (y, ok shared))
    × (y
        ≡ server_line sealing
            (codes "s")
            shared
            shared
            (client_line sealing (codes "c") shared shared)
          ++ (10 ∷ (codes "OK" ++ (10 ∷ []))))
unfolding Keytool.tor_priv_key
handshake_completes_example =
    handshake_completes sealing sealing-IsLawful sealing-IsSized client_key (codes "c") (codes "s")
      shared shared anyone (codes "elsewhere") refl refl refl refl

-- What an honest client sends.
abbrev pub sent : Bytes
sent = client_line sealing (codes "c") shared shared ++ (10 ∷ (encode seal ++ (10 ∷ [])))

server_accepts : (server_handshake sealing anyone (codes "s") shared sent).1 ≡ ok shared
unfolding server_handshake read_line client_line encode kothawoc.Text.split beq Keytool.tor_id
    Keytool.set_tor_public_key decode
server_accepts = refl

server_handshake-Accepted_example : Accepted sealing anyone (codes "s") shared sent shared
server_handshake-Accepted_example =
    server_handshake-Accepted sealing anyone (codes "s") shared sent shared server_accepts

-- As many bytes without a line's end.
abbrev noise : ℕ → Bytes
noise zero = []
noise (suc n) = 7 ∷ noise n

read_line-bound_example :
    read_line [] (noise 1025 ++ codes "more") ≡ with_more (codes "more") (read_line [] (noise 1025))
read_line-bound_example = read_line-bound (noise 1025) (codes "more") (ground arith)

-- What an honest server sends.
abbrev reply : Bytes
reply =
    server_line sealing (codes "s") shared shared (client_line sealing (codes "c") shared shared)
    ++ (10 ∷ (codes "OK" ++ (10 ∷ [])))

client_accepts : (client_session sealing (codes "c") shared shared reply).1 ≡ ok shared
unfolding client_session read_line server_line encode kothawoc.Text.split decode beq
client_accepts = refl

client_session-Trusted_example :
    Trusted sealing (client_line sealing (codes "c") shared shared) reply shared
client_session-Trusted_example =
    client_session-Trusted sealing (codes "c") shared shared reply shared client_accepts
