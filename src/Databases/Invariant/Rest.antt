-- ===== src/Databases/Invariant/Rest.antt =====
-- Adding a peer and deleting a file keep the invariant.
use kothawoc.Prelude.{ℕ, Bytes, Option, none, some, [], ◌≡◌, refl}
use kothawoc.Serror.{sentinel, constraint, io_error}
use kothawoc.Dict.{lookup}
use kothawoc.Table.{Table, add}
use kothawoc.Table.Laws.{add-IsTable}
use kothawoc.Databases.State.{Store, PeerData}
use kothawoc.Databases.Monad.{Outcome, ok, err}
use kothawoc.Databases.Keeps.{Keeps, io-Keeps, fail-Keeps}
use kothawoc.Databases.Peers.{insert_peer}
use kothawoc.Databases.Cancel.{remove_file, remove_key}
use kothawoc.Databases.Invariant.{IsValid, free, files_free}

pub insert_peer-Keeps :
    (torid : Bytes) (pubkey : Option Bytes) → Keeps IsValid (insert_peer torid pubkey)
unfolding insert_peer
insert_peer-Keeps torid none = io-Keeps free _ (fail-Keeps _)
insert_peer-Keeps torid (some pubkey) =
    io-Keeps free _ (record {
      at = λ s h. go s h (add torid (record { pubkey = pubkey; name = [] }) s.peers) refl;
    })
  where
    go :
        (s : Store)
        → IsValid s
        → (o : Option (ℕ × Table PeerData))
        → add torid (record { pubkey = pubkey; name = [] }) s.peers ≡ o
        → IsValid
            (elim o as (λ _. Outcome (Unit {0}) × Store) [
              | none ↦ (err (sentinel constraint), s)
              | some (n, t) ↦ (ok tt, record s { peers = t })
            ]).1
    go s h none e = h
    go s h (some (n, t)) e = record {
      articles = h.articles;
      groups = h.groups;
      peers = add-IsTable s.peers torid _ n t h.peers e;
      listed = h.listed;
    }

pub remove_file-Keeps : (sig : Bytes) → Keeps IsValid (remove_file sig)
unfolding remove_file
remove_file-Keeps sig = io-Keeps free _ (record { at = λ s h. go s h (lookup sig s.files) })
  where
    go :
        (s : Store)
        → IsValid s
        → (o : Option Bytes)
        → IsValid
            (elim o as (λ _. Outcome (Unit {0}) × Store) [
              | none ↦ (err (sentinel io_error), s)
              | some _ ↦ (ok tt, record s { files = remove_key sig s.files })
            ]).1
    go s h none = h
    go s h (some _) = files_free s _ h
