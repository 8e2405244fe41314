-- ===== src/Keytool/Key.antt =====
-- pkg/keytool/keytool.go: `EasyEdKey`, a key of one of four kinds, its setters and its parsers.
use kothawoc.Prelude.{
  ℕ, String, Bytes, Bool, true, false, Option, none, some, [], ◌∷◌, if◌then◌else◌,
}
use kothawoc.Serror.{
  Error, Sentinel, sentinel, serror, wrap, Caller, io_error, invalid_key, invalid_public_key,
  invalid_key_type, invalid_certificate, invalid_ssh_authorized_key,
}

-- `KeyType`; `private` and `public` are keys of crypto/ed25519.
pub data KeyType : Type 0 where
  tor_public tor_private public private none_yet : KeyType

-- `EasyEdKey`; a nil key is empty.
pub record EasyEdKey : Type 0 where
  pub ed_key : Bytes
  pub ed_pub : Bytes
  pub tor_pub_key : Bytes
  pub tor_priv_key : Bytes
  pub key_type : KeyType

-- `EasyEdKey{}`
abbrev pub empty_key : EasyEdKey
empty_key = record {
  ed_key = [];
  ed_pub = [];
  tor_pub_key = [];
  tor_priv_key = [];
  key_type = none_yet;
}

pub data Result (A : Type 0) : Type 0 where
  ok : A → Result A
  err : Error → Result A

-- A line of pkg/keytool/keytool.go.
abbrev pub at : String → ℕ → Caller
at name line = record { runtime_name = name; function = "keytool.go"; line = line }

-- `serr.New` of a sentinel, and `serr.Wrap` of a sentinel and the error of a library.
unfoldable pub refused : {A : Type 0} → String → ℕ → Sentinel → Result A
refused name line e = err (serror (at name line) (sentinel e))

unfoldable pub wrapped : {A : Type 0} → String → ℕ → Sentinel → Error → Result A
wrapped name line s e = err (wrap (at name line) (some (sentinel s) ∷ (some e ∷ [])))

-- What becomes of the result of a library that can fail.
unfoldable pub from_library : {A B : Type 0} → Option A → Result B → (A → B) → Result B
from_library none r f = r
from_library (some a) r f = ok (f a)

unfoldable pub set_public_key : Bytes → EasyEdKey → EasyEdKey
set_public_key pk e = record e { ed_pub = pk; key_type = public }

unfoldable pub set_private_key : Bytes → EasyEdKey → EasyEdKey
set_private_key pk e = record e { ed_key = pk; key_type = private }

unfoldable pub set_tor_public_key : Bytes → EasyEdKey → EasyEdKey
set_tor_public_key pk e = record e { tor_pub_key = pk; key_type = tor_public }

unfoldable pub set_tor_private_key : Bytes → EasyEdKey → EasyEdKey
set_tor_private_key pk e = record e { tor_priv_key = pk; key_type = tor_private }

-- `SetSshPublicKey`: the key after its two type assertions, `none` where one fails.
unfoldable pub set_ssh_public_key : Option Bytes → EasyEdKey → Result (Unit {0}) × EasyEdKey
unfolding refused
set_ssh_public_key none e = (refused "SetSshPublicKey" 191 invalid_key_type, e)
set_ssh_public_key (some pk) e = (ok tt, record e { ed_pub = pk; key_type = public })

-- `SetSshAuthorizedKey`: the outer `none` is a line that `ssh.ParseAuthorizedKey` refuses.
unfoldable pub set_ssh_authorized_key :
    Option (Option Bytes) → EasyEdKey → Result (Unit {0}) × EasyEdKey
unfolding set_ssh_public_key wrapped
set_ssh_authorized_key none e =
    (wrapped "SetSshAuthorizedKey" 201 invalid_ssh_authorized_key (sentinel io_error), e)
set_ssh_authorized_key (some k) e =
    let (r, e') = set_ssh_public_key k e in
    elim r [
      | ok _ ↦ (ok tt, e')
      | err x ↦ (wrapped "SetSshAuthorizedKey" 206 invalid_ssh_authorized_key x, e')
    ]

-- `ParseCertificate`: `none` is what `x509.ParseCertificate` refuses, an inner `none` a certificate
-- whose key is of another type.
unfoldable pub parse_certificate : Option (Option Bytes) → EasyEdKey → Result (Unit {0}) × EasyEdKey
unfolding refused wrapped
parse_certificate none e =
    (wrapped "ParseCertificate" 392 invalid_certificate (sentinel io_error), e)
parse_certificate (some none) e = (refused "ParseCertificate" 397 invalid_certificate, e)
parse_certificate (some (some pub_key)) e =
    (ok tt, record e { ed_pub = pub_key; key_type = public })

-- `ParsePublicKey`, in the same way.
unfoldable pub parse_public_key : Option (Option Bytes) → EasyEdKey → Result (Unit {0}) × EasyEdKey
unfolding refused wrapped
parse_public_key none e = (wrapped "ParsePublicKey" 428 invalid_public_key (sentinel io_error), e)
parse_public_key (some none) e = (refused "ParsePublicKey" 434 invalid_public_key, e)
parse_public_key (some (some pub_key)) e = (ok tt, record e { ed_pub = pub_key; key_type = public })

-- The dynamic type of a private key that is held as `interface{}`.
pub data PrivateKey : Type 0 where
  ed25519_private : Bytes → PrivateKey
  ecdh_private : Bytes → PrivateKey

-- `privInt.(ed25519.PrivateKey)`; the key is nil where the assertion fails.
unfoldable pub as_ed25519 : PrivateKey → Bytes × Bool
as_ed25519 (ed25519_private k) = (k, true)
as_ed25519 (ecdh_private k) = ([], false)

-- `ParseKey`: the argument is the result of `x509.ParseECPrivateKey`, an EC key, of which `ECDH` makes
-- an `*ecdh.PrivateKey`.
unfoldable pub parse_key : Option Bytes → EasyEdKey → Result (Unit {0}) × EasyEdKey
unfolding refused wrapped as_ed25519
parse_key none e = (wrapped "ParseKey" 409 invalid_key (sentinel io_error), e)
parse_key (some ec) e =
    let (k, good) = as_ed25519 (ecdh_private ec) in
    if good
    then (ok tt, record e { ed_key = k; key_type = private })
    else (refused "ParseKey" 417 invalid_key, record e { ed_key = k })
