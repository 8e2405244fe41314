-- ===== src/Databases/Peers/Listing.antt =====
-- Who stands in the table of peers.
use kothawoc.Prelude.{
  ℕ, Bytes, beq_self, Bool, beq, Bool-cases, inl, inr, true, false, Option, none, some, List, [],
  ◌∷◌, map, All, ◌≡◌, refl, arith, ap, if◌then◌else◌,
}
use mathlib.Core.Path.{subst}
use kothawoc.Serror.{Error, Caller, Sentinel, sentinel, constraint}
use kothawoc.Header.{Header}
use kothawoc.Dict.{lookup}
use kothawoc.Table.{Row, Table, find_key, add, next_id}
use kothawoc.Table.Laws.{find_key-append, find_key-append_some}
use kothawoc.Keytool.{Crypto}
use kothawoc.Databases.State.{Store, PeerData}
use kothawoc.Databases.Monad.{
  Db, Outcome, ok, err, panic, ◌>>=◌, fail, io, traced, either, handle, if_open,
}
use kothawoc.Databases.Peers
use kothawoc.Databases.Peers.{insert_peer, set_up_peer, add_peer, get_peer_list}
use kothawoc.Databases.Keeps.{
  Keeps, pure-Keeps, either-Keeps, traced-Keeps, io-Keeps, group_exec-Keeps,
}
use kothawoc.Databases.Stable.{IsStable, or_fail-query}
use kothawoc.Databases.Stable.Rest.{config_get_device_key-Keeps}
use kothawoc.Databases.Stable.Lasting.{Lasts, Lasts-IsStable}
use kothawoc.Databases.Server.{serve, answer, answer_error}
use kothawoc.Databases.Client
use kothawoc.Databases.Client.{Returned, returned, only_error, pass_error}

abbrev pub Lists : Bytes → Table PeerData → Type 0
Lists k t = (r : Row PeerData) × (find_key k t.rows ≡ some r)

pub add-Lists :
    (k torid : Bytes) (d : PeerData) (n : ℕ) (t t' : Table PeerData)
    → add torid d t ≡ some (n, t')
    → Lists k t
    → Lists k t'
unfolding add
add-Lists k torid d n t t' e (r, found) = (
  r,
  ground (
    arith,
    e,
    found,
    find_key-append_some k t.rows (record { id = next_id t; key = torid; rest = d } ∷ []) r found,
  ),
)

add-Lists_self :
    (torid : Bytes) (d : PeerData) (n : ℕ) (t t' : Table PeerData)
    → add torid d t ≡ some (n, t')
    → Lists torid t'
unfolding add find_key
add-Lists_self torid d n t t' e =
    let new : Row PeerData = record { id = next_id t; key = torid; rest = d } in
    (new, ground (arith, e, find_key-append torid t.rows (new ∷ []), beq_self torid))

abbrev FoundIn : List (Row PeerData) → Bytes → Type 0
FoundIn rows k = (r : Row PeerData) × (find_key k rows ≡ some r)

further :
    (q : Row PeerData) (rows : List (Row PeerData)) (k : Bytes)
    → FoundIn rows k
    → FoundIn (q ∷ rows) k
unfolding find_key
further q rows k (r, found) = elim (Bool-cases (beq q.key k)) [
  | inl same ↦ (q, ground (arith, same))
  | inr other ↦ (r, ground (arith, other, found))
]

all_further :
    (q : Row PeerData) (rows : List (Row PeerData)) (ks : List Bytes)
    → All (FoundIn rows) ks
    → All (FoundIn (q ∷ rows)) ks
all_further q rows [] h = tt
all_further q rows (k ∷ ks) h = (further q rows k h.0, all_further q rows ks h.1)

-- Every row of the table is found under its key.
keys-Lists : (rows : List (Row PeerData)) → All (FoundIn rows) (map (λ r. r.key) rows)
unfolding find_key
keys-Lists [] = tt
keys-Lists (q ∷ rows) = (
  (q, ground (arith, beq_self q.key)),
  all_further q rows (map (λ r. r.key) rows) (keys-Lists rows),
)

-- What holds when an action has returned.
abbrev Done : (Store → Type 0) → {A : Type 0} → Outcome A × Store → Type 0
Done Q (ok a, s) = Q s
Done Q (err e, s) = Unit
Done Q (panic, s) = Unit

record Yields (Q : Store → Type 0) {A : Type 0} (m : Db A) : Type 0 where
  at : (s : Store) → Done Q (m s)

module _ {Q : Store → Type 0} {A B : Type 0} where
  bind-Yields :
      (m : Db A) (f : A → Db B)
      → Keeps (λ s. Unit) m
      → ((a : A) → Yields Q (f a))
      → Yields Q (m >>= f)
  bind-Yields m f _ k = record { at = λ s. go (m s) }
    where
      go :
          (r : Outcome A × Store)
          → Done Q (elim r.0 as (λ _. Outcome B × Store) [
            | ok a ↦ f a r.1
            | err e ↦ (err e, r.1)
            | panic ↦ (panic, r.1)
          ])
      go (ok a, s) = (k a).at s
      go (err e, s) = tt
      go (panic, s) = tt

  either-Yields :
      (m : Db A) (f : Error → Db B) (g : A → Db B)
      → Keeps (λ s. Unit) m
      → ((e : Error) → Yields Q (f e))
      → ((a : A) → Yields Q (g a))
      → Yields Q (either m f g)
  either-Yields m f g _ kf kg = record { at = λ s. go (m s) }
    where
      go :
          (r : Outcome A × Store)
          → Done Q (elim r.0 as (λ _. Outcome B × Store) [
            | ok a ↦ g a r.1
            | err e ↦ f e r.1
            | panic ↦ (panic, r.1)
          ])
      go (ok a, s) = (kg a).at s
      go (err e, s) = (kf e).at s
      go (panic, s) = tt

module _ {Q : Store → Type 0} {A : Type 0} where
  fail-Yields : (e : Error) → Yields Q (fail {A = A} e)
  fail-Yields e = record { at = λ s. tt }

  traced-Yields : (c : Caller) (m : Db A) → Yields Q m → Yields Q (traced c m)
  traced-Yields c m k = record { at = λ s. go (m s) (k.at s) }
    where
      go :
          (r : Outcome A × Store)
          → Done Q r
          → Done Q (elim r.0 as (λ _. Outcome A × Store) [
            | ok a ↦ (ok a, r.1)
            | err e ↦ (err (Error.serror c e), r.1)
            | panic ↦ (panic, r.1)
          ])
      go (ok a, s) h = h
      go (err e, s) h = tt
      go (panic, s) h = tt

  if-Yields : (b : Bool) (m n : Db A) → Yields Q m → Yields Q n → Yields Q (if b then m else n)
  if-Yields true m n km kn = km
  if-Yields false m n km kn = kn

  handle-Yields :
      (group : Bytes) (f : ℕ → Db A) → ((n : ℕ) → Yields Q (f n)) → Yields Q (handle group f)
  unfolding handle if_open
  handle-Yields group f k = record { at = λ s. go s (lookup group s.group_articles) }
    where
      go :
          (s : Store) (o : Option ℕ)
          → Done Q (elim o as (λ _. Outcome A × Store) [ none ↦ (panic, s) | some n ↦ f n s ])
      go s none = tt
      go s (some n) = (k n).at s

  io-Yields : (m : Db A) → Yields Q m → Yields Q (io m)
  io-Yields m k = record { at = λ s. go s s.faults }
    where
      go :
          (s : Store) (fs : List Bool)
          → Done Q (elim fs as (λ _. Outcome A × Store) [
            | [] ↦ m s
            | fault ∷ rest ↦ elim fault [
              | true ↦ (err (sentinel Sentinel.io_error), record s { faults = rest })
              | false ↦ m (record s { faults = rest })
            ]
          ])
      go s [] = k.at s
      go s (true ∷ rest) = tt
      go s (false ∷ rest) = k.at (record s { faults = rest })

insert_peer-Yields :
    (torid : Bytes) (pubkey : Option Bytes)
    → Yields (λ s. Lists torid s.peers) (insert_peer torid pubkey)
unfolding insert_peer
insert_peer-Yields torid none = io-Yields _ (fail-Yields _)
insert_peer-Yields torid (some pubkey) =
    io-Yields _
      (record { at = λ s. go s (add torid (record { pubkey = pubkey; name = [] }) s.peers) refl })
  where
    go :
        (s : Store) (o : Option (ℕ × Table PeerData))
        → add torid (record { pubkey = pubkey; name = [] }) s.peers ≡ o
        → Done
            (λ s'. Lists torid s'.peers)
            (elim o as (λ _. Outcome (Unit {0}) × Store) [
              | none ↦ (err (sentinel constraint), s)
              | some (n, t) ↦ (ok tt, record s { peers = t })
            ])
    go s none e = tt
    go s (some (n, t)) e = add-Lists_self torid _ n s.peers t e

ignoring : IsStable (Lasts (λ t f. Unit)) (λ h raw. Unit)
ignoring = Lasts-IsStable (λ t f. Unit) (λ _ _ _ _ _ _ _ h. h) (λ _ _ _ h. h) (λ _ _ _ _ _ _ _ h. h)

set_up_peer-Yields :
    (c : Crypto) (torid : Bytes) → Yields (λ s. Lists torid s.peers) (set_up_peer c torid)
unfolding set_up_peer
set_up_peer-Yields c torid =
    bind-Yields _ _
      (either-Keeps _ _ _ (config_get_device_key-Keeps ignoring) (λ _. pure-Keeps _)
        (λ k. pure-Keeps k))
      (λ key. handle-Yields _ _ (λ n.
        bind-Yields _ _ (traced-Keeps _ _ (group_exec-Keeps (λ s fs h. h) (λ s d h. h) n _ _)) (λ _.
          bind-Yields _ _ (traced-Keeps _ _ (group_exec-Keeps (λ s fs h. h) (λ s d h. h) n _ _))
            (λ _.
              bind-Yields _ _ (traced-Keeps _ _ (group_exec-Keeps (λ s fs h. h) (λ s d h. h) n _ _))
                (λ _. traced-Yields _ _ (insert_peer-Yields torid _))))))

-- A peer that was added stands in the table.
add_peer-Yields :
    (c : Crypto) (torid : Bytes) → Yields (λ s. Lists torid s.peers) (add_peer c torid)
unfolding add_peer
add_peer-Yields c torid =
    either-Yields _ _ _ (io-Keeps (λ s fs h. h) _ (or_fail-query _ _))
      (λ e. if-Yields _ _ _ (set_up_peer-Yields c torid) (fail-Yields _)) (λ _. fail-Yields _)

module _ (c : Crypto) (read_message : Bytes → Option (Header × Bytes))
    (remove_peer : Bytes → Db (Unit {0})) where
  -- Where `AddPeer` of `BackendDbs` returns no error, the peer stands in the table.
  pub add_peer-Lists :
      (torid : Bytes) (s s' : Store) (a : Unit {0})
      → Client.add_peer c read_message remove_peer torid s ≡ (returned a none, s')
      → Lists torid s'.peers
  unfolding Client.add_peer serve answer_error only_error
  add_peer-Lists torid s s' a e = go (Peers.add_peer c torid s) ((add_peer-Yields c torid).at s) e
    where
      go :
          (r : Outcome (Unit {0}) × Store)
          → Done (λ t. Lists torid t.peers) r
          → ◌≡◌ {A = Returned (Unit {0}) × Store}
              (only_error 0 (answer_error r.0), r.1)
              (returned a none, s')
          → Lists torid s'.peers
      go (ok _, t) h q = subst (λ (x : Store). Lists torid x.peers) (ap (λ z. z.1) q) h
      go (err x, t) h q = absurd (ground (arith, q))
      go (panic, t) h q = absurd (ground (arith, q))

  -- Where `GetPeerList` returns no error, everyone in the list stands in the table.
  pub get_peer_list-Lists :
      (torids : List Bytes) (s s' : Store)
      → Client.get_peer_list c read_message remove_peer s ≡ (returned torids none, s')
      → All (λ k. Lists k s'.peers) torids
  unfolding Client.get_peer_list serve answer pass_error get_peer_list
  get_peer_list-Lists torids s s' e =
      subst (λ ks. All (λ k. Lists k s'.peers) ks) (ground (arith, e)) (keys-Lists s'.peers.rows)
