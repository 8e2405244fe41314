-- ===== src/Databases/Keeps.antt =====
-- Actions that keep a property of the state, and the rules for the ways in which actions are put
-- together.
use kothawoc.Prelude.{ℕ, Bytes, Bool, true, false, Option, none, some, List, [], ◌∷◌, if◌then◌else◌}
use kothawoc.Serror.{Error, Sentinel, Caller}
use kothawoc.Dict.{Disk, lookup, open_file, write_file}
use kothawoc.Databases.State.{Store, GroupDb}
use kothawoc.Databases.Monad.{
  Db, Outcome, ok, err, panic, ◌>>=◌, pure, fail, crash, io, or_fail, on_error, traced, modify,
  if_open, handle, group_query, group_exec, either,
}

pub record Keeps (P : Store → Type 0) {A : Type 0} (m : Db A) : Type 0 where
  pub at : (s : Store) → P s → P (m s).1

module _ {P : Store → Type 0} {A : Type 0} where
  pub pure-Keeps : (a : A) → Keeps P (pure a)
  pure-Keeps a = record { at = λ s h. h }

  pub fail-Keeps : (e : Error) → Keeps P (fail {A = A} e)
  fail-Keeps e = record { at = λ s h. h }

module _ {P : Store → Type 0} {A : Type 0} where
  pub crash-Keeps : Keeps P (crash {A = A})
  crash-Keeps = record { at = λ s h. h }

module _ {P : Store → Type 0} where
  pub modify-Keeps : (f : Store → Store) → ((s : Store) → P s → P (f s)) → Keeps P (modify f)
  modify-Keeps f h = record { at = h }

module _ {P : Store → Type 0} {A B : Type 0} where
  pub bind-Keeps :
      (m : Db A) (f : A → Db B) → Keeps P m → ((a : A) → Keeps P (f a)) → Keeps P (m >>= f)
  bind-Keeps m f km kf = record { at = λ s h. go (m s) (km.at s h) }
    where
      go :
          (r : Outcome A × Store)
          → P r.1
          → P
              (elim r.0 as (λ _. Outcome B × Store) [
                | ok a ↦ f a r.1
                | err e ↦ (err e, r.1)
                | panic ↦ (panic, r.1)
              ]).1
      go (ok a, s) h = (kf a).at s h
      go (err e, s) h = h
      go (panic, s) h = h

module _ {P : Store → Type 0} {A B : Type 0} where
  pub either-Keeps :
      (m : Db A) (f : Error → Db B) (g : A → Db B)
      → Keeps P m
      → ((e : Error) → Keeps P (f e))
      → ((a : A) → Keeps P (g a))
      → Keeps P (either m f g)
  either-Keeps m f g km kf kg = record { at = λ s h. go (m s) (km.at s h) }
    where
      go :
          (r : Outcome A × Store)
          → P r.1
          → P
              (elim r.0 as (λ _. Outcome B × Store) [
                | ok a ↦ g a r.1
                | err e ↦ f e r.1
                | panic ↦ (panic, r.1)
              ]).1
      go (ok a, s) h = (kg a).at s h
      go (err e, s) h = (kf e).at s h
      go (panic, s) h = h

module _ {P : Store → Type 0} {A : Type 0} where
  pub traced-Keeps : (c : Caller) (m : Db A) → Keeps P m → Keeps P (traced c m)
  traced-Keeps c m km = either-Keeps m _ (λ a. pure a) km (λ e. fail-Keeps _) (λ a. pure-Keeps a)

  pub on_error-Keeps :
      (m : Db A) (f : Error → Db A)
      → Keeps P m
      → ((e : Error) → Keeps P (f e))
      → Keeps P (on_error m f)
  on_error-Keeps m f km kf = either-Keeps m f (λ a. pure a) km kf (λ a. pure-Keeps a)

  pub or_fail-Keeps : (e : Sentinel) (o : Option A) → Keeps P (or_fail e o)
  or_fail-Keeps e none = record { at = λ s h. h }
  or_fail-Keeps e (some a) = record { at = λ s h. h }

  pub if-Keeps : (b : Bool) (m n : Db A) → Keeps P m → Keeps P n → Keeps P (if b then m else n)
  if-Keeps true m n km kn = km
  if-Keeps false m n km kn = kn

  pub if_open-Keeps :
      (group : Bytes) (m : Db A) (f : ℕ → Db A)
      → Keeps P m
      → ((n : ℕ) → Keeps P (f n))
      → Keeps P (if_open group m f)
  unfolding if_open
  if_open-Keeps group m f km kf = record { at = λ s h. go s h (lookup group s.group_articles) }
    where
      go :
          (s : Store)
          → P s
          → (o : Option ℕ)
          → P (elim o as (λ _. Outcome A × Store) [ none ↦ m s | some n ↦ f n s ]).1
      go s h none = km.at s h
      go s h (some n) = (kf n).at s h

  pub handle-Keeps :
      (group : Bytes) (f : ℕ → Db A) → ((n : ℕ) → Keeps P (f n)) → Keeps P (handle group f)
  unfolding handle
  handle-Keeps group f kf = if_open-Keeps group crash f (record { at = λ s h. h }) kf

-- Properties that do not look at the schedule of faults.
abbrev pub FaultFree : (Store → Type 0) → Type 0
FaultFree P = (s : Store) (fs : List Bool) → P s → P (record s { faults = fs })

module _ {P : Store → Type 0} (free : FaultFree P) {A : Type 0} where
  pub io-Keeps : (m : Db A) → Keeps P m → Keeps P (io m)
  io-Keeps m km = record { at = λ s h. go s h s.faults }
    where
      go :
          (s : Store)
          → P s
          → (fs : List Bool)
          → P
              (elim fs as (λ _. Outcome A × Store) [
                | [] ↦ m s
                | fault ∷ rest ↦ elim fault [
                  | true ↦ (err (Error.sentinel Sentinel.io_error), record s { faults = rest })
                  | false ↦ m (record s { faults = rest })
                ]
              ]).1
      go s h [] = km.at s h
      go s h (true ∷ rest) = free s rest h
      go s h (false ∷ rest) = km.at (record s { faults = rest }) (free s rest h)

  pub group_query-Keeps :
      (n : ℕ) (f : GroupDb → Option A) (e : Sentinel) → Keeps P (group_query n f e)
  unfolding group_query
  group_query-Keeps n f e = io-Keeps _ (record { at = λ s h. go s h (open_file n s.disk) })
    where
      go :
          (s : Store)
          → P s
          → (o : Option GroupDb)
          → P
              (elim o as (λ _. Outcome A × Store) [
                | none ↦ (err (Error.sentinel Sentinel.no_such_table), s)
                | some g ↦ or_fail e (f g) s
              ]).1
      go s h none = h
      go s h (some g) = (or_fail-Keeps {P = P} e (f g)).at s h

-- Properties that do not look at the databases of the groups either.
abbrev pub DiskFree : (Store → Type 0) → Type 0
DiskFree P = (s : Store) (d : Disk GroupDb) → P s → P (record s { disk = d })

module _ {P : Store → Type 0} (free : FaultFree P) (disk_free : DiskFree P) where
  pub group_exec-Keeps :
      (n : ℕ) (f : GroupDb → Option GroupDb) (e : Sentinel) → Keeps P (group_exec n f e)
  unfolding group_exec
  group_exec-Keeps n f e = io-Keeps free _ (record { at = λ s h. go s h (open_file n s.disk) })
    where
      write :
          (s : Store)
          → P s
          → (o : Option GroupDb)
          → P
              (elim o as (λ _. Outcome (Unit {0}) × Store) [
                | none ↦ (err (Error.sentinel e), s)
                | some g' ↦ (ok tt, record s { disk = write_file n g' s.disk })
              ]).1
      write s h none = h
      write s h (some g') = disk_free s (write_file n g' s.disk) h

      go :
          (s : Store)
          → P s
          → (o : Option GroupDb)
          → P
              (elim o as (λ _. Outcome (Unit {0}) × Store) [
                | none ↦ (err (Error.sentinel Sentinel.no_such_table), s)
                | some g ↦ elim (f g) [
                  | none ↦ (err (Error.sentinel e), s)
                  | some g' ↦ (ok tt, record s { disk = write_file n g' s.disk })
                ]
              ]).1
      go s h none = h
      go s h (some g) = write s h (f g)

-- An action that starts in states with `R` and always ends in states with `P`.
pub record Into (R P : Store → Type 0) {A : Type 0} (m : Db A) : Type 0 where
  pub at : (s : Store) → R s → P (m s).1

-- What holds of the state after each end of an action that starts with `P`: `Q a` where it returns
-- `a`, and `P` otherwise.
abbrev pub Ends :
    (P : Store → Type 0) {A : Type 0} → (A → Store → Type 0) → Outcome A × Store → Type 0
Ends P Q (ok a, s) = Q a s
Ends P Q (err e, s) = P s
Ends P Q (panic, s) = P s

pub record Gives (P : Store → Type 0) {A : Type 0} (m : Db A) (Q : A → Store → Type 0)
    : Type 0 where
  pub at : (s : Store) → P s → Ends P Q (m s)

module _ {P R : Store → Type 0} (weaken : (s : Store) → R s → P s) {A B : Type 0} where
  pub bind-Into :
      (m : Db A) (f : A → Db B) → Keeps R m → ((a : A) → Into R P (f a)) → Into R P (m >>= f)
  bind-Into m f km kf = record { at = λ s h. go (m s) (km.at s h) }
    where
      go :
          (r : Outcome A × Store)
          → R r.1
          → P
              (elim r.0 as (λ _. Outcome B × Store) [
                | ok a ↦ f a r.1
                | err e ↦ (err e, r.1)
                | panic ↦ (panic, r.1)
              ]).1
      go (ok a, s) h = (kf a).at s h
      go (err e, s) h = weaken s h
      go (panic, s) h = weaken s h

module _ {P : Store → Type 0} {A : Type 0} where
  pub traced-Gives :
      (c : Caller) (m : Db A) (Q : A → Store → Type 0) → Gives P m Q → Gives P (traced c m) Q
  traced-Gives c m Q g = record { at = λ s h. go (m s) (g.at s h) }
    where
      go :
          (r : Outcome A × Store)
          → Ends P Q r
          → Ends P Q (elim r.0 as (λ _. Outcome A × Store) [
            | ok a ↦ (ok a, r.1)
            | err e ↦ (err (Error.serror c e), r.1)
            | panic ↦ (panic, r.1)
          ])
      go (ok a, s) h = h
      go (err e, s) h = h
      go (panic, s) h = h

  pub io-Gives :
      (free : FaultFree P) (m : Db A) (Q : A → Store → Type 0) → Gives P m Q → Gives P (io m) Q
  io-Gives free m Q g = record { at = λ s h. go s h s.faults }
    where
      go :
          (s : Store)
          → P s
          → (fs : List Bool)
          → Ends P Q (elim fs as (λ _. Outcome A × Store) [
            | [] ↦ m s
            | fault ∷ rest ↦ elim fault [
              | true ↦ (err (Error.sentinel Sentinel.io_error), record s { faults = rest })
              | false ↦ m (record s { faults = rest })
            ]
          ])
      go s h [] = g.at s h
      go s h (true ∷ rest) = free s rest h
      go s h (false ∷ rest) = g.at (record s { faults = rest }) (free s rest h)

module _ {P R : Store → Type 0} (weaken : (s : Store) → R s → P s) {A B : Type 0} where
  pub bind-Gives :
      (m : Db A) (f : A → Db B) (Q : A → Store → Type 0)
      → Gives R m Q
      → ((a : A) → Into (Q a) P (f a))
      → Into R P (m >>= f)
  bind-Gives m f Q km kf = record { at = λ s h. go (m s) (km.at s h) }
    where
      go :
          (r : Outcome A × Store)
          → Ends R Q r
          → P
              (elim r.0 as (λ _. Outcome B × Store) [
                | ok a ↦ f a r.1
                | err e ↦ (err e, r.1)
                | panic ↦ (panic, r.1)
              ]).1
      go (ok a, s) h = (kf a).at s h
      go (err e, s) h = weaken s h
      go (panic, s) h = weaken s h

module _ {P : Store → Type 0} {A : Type 0} where
  pub Into-Keeps : (m : Db A) → Into P P m → Keeps P m
  Into-Keeps m i = record { at = i.at }

  pub pure-Gives :
      (a : A) (Q : A → Store → Type 0) → ((s : Store) → P s → Q a s) → Gives P (pure a) Q
  pure-Gives a Q h = record { at = h }

module _ {P : Store → Type 0} {A : Type 0} where
  pub Gives-Keeps :
      (m : Db A) (Q : A → Store → Type 0)
      → ((a : A) (s : Store) → Q a s → P s)
      → Gives P m Q
      → Keeps P m
  Gives-Keeps m Q weaken g = record { at = λ s h. go (m s) (g.at s h) }
    where
      go : (r : Outcome A × Store) → Ends P Q r → P r.1
      go (ok a, s) h = weaken a s h
      go (err e, s) h = h
      go (panic, s) h = h
