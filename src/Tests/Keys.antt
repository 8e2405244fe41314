-- ===== src/Tests/Keys.antt =====
-- Runs of the model of pkg/keytool.
use kothawoc.Prelude.{
  ℕ, ◌+◌, Bytes, Bool, codes, true, false, Option, none, some, List, [], ◌∷◌, ◌++◌, ◌≡◌, refl, inl,
  beq, if◌then◌else◌,
}
use kothawoc.Serror.{Sentinel, Error, sentinel, message, invalid_key}
use kothawoc.Keytool.{
  EasyEdKey, private, empty_key, ok, tor_id, tor_sign, tor_verify, set_tor_id, generate_key,
}
use kothawoc.Keytool.Identity.{tor_verify-tor_sign}
use kothawoc.Prelude.Int.{pos, negsuc}
use kothawoc.Keytool.Certificate.{Certifier, begins, placed, create_cert, create_cert-ok}
use kothawoc.Tests.Data.{toy, toy-IsLawful}

abbrev alice : EasyEdKey
alice = record empty_key { ed_key = codes "k"; key_type = private }

alice_generated : generate_key toy empty_key ≡ (ok tt, alice)
unfolding generate_key
alice_generated = refl

tor_verify-tor_sign_example :
    (s : Bytes) × (tor_sign toy (codes "hi") alice ≡ ok s)
    × (tor_verify toy s (codes "hi") alice ≡ ok true)
    × (tor_verify toy s (codes "hi") (set_tor_id toy (2 ∷ 1 ∷ codes "k") empty_key).1 ≡ ok true)
unfolding tor_id
tor_verify-tor_sign_example =
    tor_verify-tor_sign toy toy-IsLawful alice empty_key (codes "hi") (2 ∷ 1 ∷ codes "k") (inl refl)
      refl

-- Is it `ErrInvalidKey`?
abbrev is_invalid_key : Sentinel → Bool
is_invalid_key invalid_key = true
is_invalid_key _ = false

abbrev wrapped_errors : List (Option Error)
wrapped_errors = none ∷ some (message "x") ∷ some (sentinel invalid_key) ∷ []

-- A surrounding in which it is noon, the only address is 1.1, and a certificate is the names that it is for
-- and the key that signs.
abbrev noon : Certifier ℕ Bytes
noon = record {
  now = 12;
  parse_time = λ t. none;
  add_time = λ t n. elim n [ pos k ↦ t + k | negsuc _ ↦ t ];
  random_below = λ n. some 7;
  parse_ip = λ h. if beq h (codes "1.1") then some h else none;
  certify = λ t public key. elim t.names [ [] ↦ none | name ∷ _ ↦ some (name ++ (public ++ key)) ];
}

create_cert-ok_example :
    (alice.key_type ≡ private)
    × ((not_before : ℕ) × (serial : ℕ) × (der : Bytes) × (begins noon [] ≡ some not_before)
        × (some 7 ≡ some serial)
        × (noon.certify
              (placed noon true (codes "1.1,node") not_before (pos 3) serial)
              (1 ∷ codes "k")
              (codes "k")
            ≡ some der)
        × (codes "CERTIFICATEnode" ++ (1 ∷ codes "kk") ≡ codes "CERTIFICATE" ++ der))
unfolding create_cert kothawoc.Text.split beq
create_cert-ok_example =
    create_cert-ok noon toy alice true (codes "1.1,node") []
      (codes "CERTIFICATEnode" ++ (1 ∷ codes "kk")) (pos 3) refl
