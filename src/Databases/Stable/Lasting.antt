-- ===== src/Databases/Stable/Lasting.antt =====
-- Properties of the table of peers and of the files of the articles alone.
use kothawoc.Prelude.{ℕ, Bytes, Bool, Option, none, some, List, [], ◌≡◌, refl}
use kothawoc.Prelude.Int.{ℤ, pos}
use kothawoc.Serror.{sentinel, constraint, no_rows, io_error}
use kothawoc.Header.{Header, get}
use kothawoc.Dict.{Dict, Disk, lookup, insert}
use kothawoc.Table.{Row, Table, find_key, add, change}
use kothawoc.Databases.State.{Store, Stored, PeerData, GroupDb}
use kothawoc.Databases.Monad.{crash, Outcome, ok, err}
use kothawoc.Databases.Keeps.{
  Keeps, fail-Keeps, pure-Keeps, modify-Keeps, bind-Keeps, traced-Keeps, io-Keeps, group_exec-Keeps,
}
use kothawoc.Databases.Articles.{signature_header, insert_article, store_article, update_refs}
use kothawoc.Databases.Articles.Writing.{IsBeginning, write_file-Keeps}
use kothawoc.Databases.Groups.{CardField, insert_group, register, new_group}
use kothawoc.Databases.Peers.{insert_peer}
use kothawoc.Databases.Cancel.{remove_file, remove_key}
use mathlib.Core.Path.{subst}
use kothawoc.Databases.Stable.{IsStable, Sent}
use kothawoc.Databases.Stable.Groups.{create_index-Keeps, grant-Keeps}

module _ (Q : Table PeerData → Dict Bytes → Type 0) where
  abbrev pub Lasts : Store → Type 0
  Lasts s = Q s.peers s.files

  free : (s : Store) (fs : List Bool) → Lasts s → Lasts (record s { faults = fs })
  free s fs h = h

  disk_free : (s : Store) (d : Disk GroupDb) → Lasts s → Lasts (record s { disk = d })
  disk_free s d h = h

  insert_article-Keeps : (mid signature : Bytes) → Keeps Lasts (insert_article mid signature)
  unfolding insert_article
  insert_article-Keeps mid signature = io-Keeps free _ (record {
    at = λ s h. go s h (add mid (record { signature = signature; refs = pos 0 }) s.articles);
  })
    where
      go :
          (s : Store)
          → Lasts s
          → (o : Option (ℕ × Table Stored))
          → Lasts
              (elim o as (λ _. Outcome ℕ × Store) [
                | none ↦ (err (sentinel constraint), s)
                | some (n, t) ↦ (ok n, record s { articles = t })
              ]).1
      go s h none = h
      go s h (some (n, t)) = h

  update_refs-Keeps : (f : ℤ → ℤ) (mid : Bytes) → Keeps Lasts (update_refs f mid)
  unfolding update_refs
  update_refs-Keeps f mid =
      io-Keeps free _ (record { at = λ s h. go s h (find_key mid s.articles.rows) })
    where
      go :
          (s : Store)
          → Lasts s
          → (o : Option (Row Stored))
          → Lasts
              (elim o as (λ _. Outcome ℤ × Store) [
                | none ↦ (err (sentinel no_rows), s)
                | some r ↦ (
                  ok (f r.rest.refs),
                  record s {
                    articles = record s.articles {
                      rows = change (λ a. record a { refs = f a.refs }) mid s.articles.rows;
                    };
                  },
                )
              ]).1
      go s h none = h
      go s h (some r) = h

  insert_group-Keeps : (name : Bytes) → Keeps Lasts (insert_group name)
  unfolding insert_group
  insert_group-Keeps name = io-Keeps free _ (record { at = λ s h. go s h (add name tt s.groups) })
    where
      go :
          (s : Store)
          → Lasts s
          → (o : Option (ℕ × Table (Unit {0})))
          → Lasts
              (elim o as (λ _. Outcome ℕ × Store) [
                | none ↦ (err (sentinel constraint), s)
                | some (n, t) ↦ (ok n, record s { groups = t })
              ]).1
      go s h none = h
      go s h (some (n, t)) = h

  new_group-Keeps :
      (name desc : Bytes) (card : List CardField) → Keeps Lasts (new_group name desc card)
  unfolding new_group register
  new_group-Keeps name desc card =
      bind-Keeps _ _ (traced-Keeps _ _ (insert_group-Keeps name)) (λ id.
        bind-Keeps _ _ (traced-Keeps _ _ (io-Keeps free _ (pure-Keeps id))) (λ n.
          bind-Keeps _ _ (traced-Keeps _ _ (io-Keeps free _ (pure-Keeps tt))) (λ _.
            bind-Keeps _ _ (traced-Keeps _ _ (create_index-Keeps free disk_free n)) (λ _.
              bind-Keeps _ _ (traced-Keeps _ _ (group_exec-Keeps free disk_free n _ _)) (λ _.
                bind-Keeps _ _ (traced-Keeps _ _ (group_exec-Keeps free disk_free n _ _)) (λ _.
                  bind-Keeps _ _ (grant-Keeps free disk_free n card)
                    (λ _. modify-Keeps (register name n) (λ s h. h))))))))

  insert_peer-Keeps :
      ((torid : Bytes) (d : PeerData) (n : ℕ) (t t' : Table PeerData) (f : Dict Bytes)
        → add torid d t ≡ some (n, t')
        → Q t f
        → Q t' f)
      → (torid : Bytes) (pubkey : Option Bytes) → Keeps Lasts (insert_peer torid pubkey)
  unfolding insert_peer
  insert_peer-Keeps grows torid none = io-Keeps free _ (fail-Keeps _)
  insert_peer-Keeps grows torid (some pubkey) = io-Keeps free _ (record {
    at = λ s h. go s h (add torid (record { pubkey = pubkey; name = [] }) s.peers) refl;
  })
    where
      go :
          (s : Store)
          → Lasts s
          → (o : Option (ℕ × Table PeerData))
          → add torid (record { pubkey = pubkey; name = [] }) s.peers ≡ o
          → Lasts
              (elim o as (λ _. Outcome (Unit {0}) × Store) [
                | none ↦ (err (sentinel constraint), s)
                | some (n, t) ↦ (ok tt, record s { peers = t })
              ]).1
      go s h none e = h
      go s h (some (n, t)) e = grows torid _ n s.peers t s.files e h

  remove_file-Keeps :
      ((k : Bytes) (t : Table PeerData) (f : Dict Bytes) → Q t f → Q t (remove_key k f))
      → (sig : Bytes) → Keeps Lasts (remove_file sig)
  unfolding remove_file
  remove_file-Keeps drops sig = io-Keeps free _ (record { at = λ s h. go s h (lookup sig s.files) })
    where
      go :
          (s : Store)
          → Lasts s
          → (o : Option Bytes)
          → Lasts
              (elim o as (λ _. Outcome (Unit {0}) × Store) [
                | none ↦ (err (sentinel io_error), s)
                | some _ ↦ (ok tt, record s { files = remove_key sig s.files })
              ]).1
      go s h none = h
      go s h (some _) = drops sig s.peers s.files h

  store_article-Keeps :
      (h : Header) (raw : Option Bytes)
      → ((text part : Bytes)
          → raw ≡ some text
          → IsBeginning part text
          → (t : Table PeerData) (f : Dict Bytes) → Q t f
          → Q t (insert (get h signature_header) part f))
      → Keeps Lasts (store_article h raw)
  unfolding store_article
  store_article-Keeps h none stores =
      bind-Keeps _ _ (traced-Keeps _ _ (insert_article-Keeps _ _)) (λ n.
        bind-Keeps _ (λ _. crash) (traced-Keeps _ _ (io-Keeps free _ (pure-Keeps n)))
          (λ id. record { at = λ s v. v }))
  store_article-Keeps h (some raw) stores =
      bind-Keeps _ _ (traced-Keeps _ _ (insert_article-Keeps _ _)) (λ n.
        bind-Keeps _ _ (traced-Keeps _ _ (io-Keeps free _ (pure-Keeps n))) (λ id.
          bind-Keeps _ _
            (write_file-Keeps free (λ s cuts v. v) (get h signature_header) raw
              (λ part begins s v. stores raw part refl begins s.peers s.files v))
            (λ _. pure-Keeps id)))

  module _ {May : Header → Bytes → Type 0}
      (grows : (torid : Bytes) (d : PeerData) (n : ℕ) (t t' : Table PeerData) (f : Dict Bytes)
        → add torid d t ≡ some (n, t')
        → Q t f
        → Q t' f)
      (drops : (k : Bytes) (t : Table PeerData) (f : Dict Bytes) → Q t f → Q t (remove_key k f))
      (stores : (h : Header) (raw : Bytes)
        → May h raw
        → (part : Bytes) → IsBeginning part raw
        → (t : Table PeerData) (f : Dict Bytes) → Q t f
        → Q t (insert (get h signature_header) part f)) where
    -- A property that lasts while peers are added, files are removed, and articles are stored, in whole
    -- or in part.
    pub Lasts-IsStable : IsStable Lasts May
    Lasts-IsStable = record {
      free = free;
      disk_free = disk_free;
      config_free = λ s d h. h;
      insert_peer = insert_peer-Keeps grows;
      update_refs = update_refs-Keeps;
      remove_file = remove_file-Keeps drops;
      new_group = new_group-Keeps;
      store_article = λ h raw may.
          store_article-Keeps h raw
            (λ text part e begins. stores h text (subst (Sent May h) e may) part begins);
    }
