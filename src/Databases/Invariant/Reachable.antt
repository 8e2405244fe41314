-- ===== src/Databases/Invariant/Reachable.antt =====
-- The states that starts and commands lead to.
use kothawoc.Prelude.{ℕ, Bool, Option, List, []}
use kothawoc.Dict.{lookup}
use kothawoc.Databases.State.{Store}
use kothawoc.Databases.Open.{new_backend_dbs}
use kothawoc.Databases.Invariant.{IsValid}
use kothawoc.Databases.Invariant.Start.{new_backend_dbs-Keeps}

-- Before the first start there is nothing on the disk; the schedule of faults, and of what failed writes leave, is arbitrary.
abbrev pub blank : List Bool → List (Option ℕ) → Store
blank faults torn = record {
  articles = record { seq = 0; rows = [] };
  config = [];
  groups = record { seq = 0; rows = [] };
  peers = record { seq = 0; rows = [] };
  group_articles = [];
  name2int = [];
  name2hex = [];
  disk = [];
  files = [];
  faults = faults;
  torn = torn;
}

-- A process that ends, in a panic or otherwise, loses its maps of open groups.
abbrev pub ended : Store → Store
ended s = record s { group_articles = []; name2int = []; name2hex = [] }

pub blank-IsValid : (faults : List Bool) (torn : List (Option ℕ)) → IsValid (blank faults torn)
unfolding lookup
blank-IsValid faults torn = record {
  articles = record { bounded = tt; distinct = tt };
  groups = record { bounded = tt; distinct = tt };
  peers = record { bounded = tt; distinct = tt };
  listed = λ name n e. cc;
}

ended-IsValid : (s : Store) → IsValid s → IsValid (ended s)
unfolding lookup
ended-IsValid s h = record {
  articles = h.articles;
  groups = h.groups;
  peers = h.peers;
  listed = λ name n e. cc;
}

-- A process that ends and starts again keeps the invariant.
pub restarted-IsValid : (t : ℕ) (s : Store) → IsValid s → IsValid (new_backend_dbs t (ended s)).1
restarted-IsValid t s h = (new_backend_dbs-Keeps t).at (ended s) (ended-IsValid s h)
