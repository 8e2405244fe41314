-- ===== src/Tests/Data.antt =====
-- A node `abc` with one group, one article in it and one peer.
use kothawoc.Prelude.{
  Bytes, codes, beq, beq_self, refl, true, false, Option, none, some, [], ◌∷◌, ◌++◌,
}
use kothawoc.Prelude.Int.{pos}
use kothawoc.Header.{Header}
use kothawoc.Keytool.{Crypto, IsLawful}
use kothawoc.Databases.State.{Store, GroupDb, Permissions, Value, text}
use kothawoc.Databases.Monad.{Db, pure}

abbrev pub lounge : Bytes
lounge = codes "abc.lounge"

abbrev pub first_id : Bytes
first_id = codes "<m1@abc>"

abbrev pub readers : Permissions
readers = record { read = true; reply = false; post = false; cancel = false; supersede = false }

abbrev pub lounge_db : GroupDb
lounge_db = record {
  articles = record { id = 9; messageid = first_id } ∷ [];
  subscriptions = codes "xyz" ∷ [];
  config =
      (codes "description", text (codes "Lounge")) ∷ (codes "flags", text (codes "flags")) ∷ [];
  perms = (codes "group", readers) ∷ [];
}

-- A header, a blank line and a body.
abbrev pub first_text : Bytes
first_text = codes "F: abc" ++ (13 ∷ 10 ∷ 13 ∷ 10 ∷ codes "hello")

abbrev pub node : Store
node = record {
  articles = record {
    seq = 9;
    rows =
        record { id = 9; key = first_id; rest = record { signature = codes "s1"; refs = pos 1 } }
        ∷ [];
  };
  config = (codes "port", Value.int (pos 11)) ∷ [];
  groups = record { seq = 7; rows = record { id = 7; key = lounge; rest = tt } ∷ [] };
  peers = record {
    seq = 3;
    rows =
        record { id = 3; key = codes "xyz"; rest = record { pubkey = codes "k"; name = [] } } ∷ [];
  };
  group_articles = (lounge, 7) ∷ [];
  name2int = (lounge, 7) ∷ [];
  name2hex = (lounge, codes "7") ∷ [];
  disk = (7, lounge_db) ∷ [];
  files = (codes "s1", first_text) ∷ [];
  faults = [];
  torn = [];
}

-- A reader that finds the same header in every text.
abbrev pub first_header : Header
first_header =
    (codes "From", codes "abc" ∷ [])
    ∷ (codes "Newsgroups", lounge ∷ [])
    ∷ (codes "Message-Id", first_id ∷ [])
    ∷ (codes "X-Kothawoc-Signature", codes "s1" ∷ [])
    ∷ []

abbrev pub read_first : Bytes → Option (Header × Bytes)
read_first b = some (first_header, codes "hello")

abbrev pub ignore_peer : Bytes → Db (Unit {0})
ignore_peer id = pure tt

abbrev strip : Bytes → Option Bytes
strip [] = none
strip (_ ∷ p) = some p

-- A public half is the private half behind a byte, an identifier the public half behind another, and a
-- signature the private half followed by the message.
abbrev pub toy : Crypto
toy = record {
  tor_private = λ k. k;
  pair_public = λ k. 1 ∷ k;
  tor_public = λ k. 1 ∷ k;
  from_crypto_public = λ p. p;
  crypto_public = λ k. 1 ∷ k;
  v3_onion_id = λ p. 2 ∷ p;
  onion_id_of_public = λ p. 2 ∷ p;
  onion_id_of_private = λ k. 2 ∷ 1 ∷ k;
  parse_onion_id = strip;
  sign = λ k m. k ++ m;
  verify = λ p m s. beq (1 ∷ s) (p ++ m);
  generate = some (codes "k");
  ssh_public = λ k. some k;
  ssh_marshal_authorized = λ k. k;
  ssh_marshal_private = λ k. some k;
  pkcs8 = λ k. some k;
  pkix = λ k. some k;
  pem = λ t b. t ++ b;
}

pub toy-IsLawful : IsLawful toy
toy-IsLawful = record {
  pair_public_lem = λ k. refl;
  crypto_public_lem = λ k. refl;
  onion_id_of_private_lem = λ k. refl;
  parse-v3_onion_id = λ p. refl;
  verify-sign = λ k m. beq_self (1 ∷ (k ++ m));
}
