-- ===== src/Backend.antt =====
-- internal/nntpbackend: what a session may ask of a node.
pub mod Reading
pub mod Posting
pub mod Access
pub mod Refusal
pub mod Keeps
pub mod Invariant
pub mod Indexed
pub mod Talk
use kothawoc.Prelude.{ℕ, Bytes, codes, List}
use kothawoc.Dict.{Dict}
use kothawoc.Prelude.Int.{ℤ}
use kothawoc.Peering.{Peer}

-- The keys of a `ClientSession` that are read.
pub record Session : Type 0 where
  pub id : Bytes
  pub conn_mode : Bytes

-- `ConnModeTor`, `ConnModeTcp` and `ConnModeLocal`
abbrev pub tor_mode : Bytes
tor_mode = codes "TOR"

abbrev pub tcp_mode : Bytes
tcp_mode = codes "TCP"

abbrev pub local_mode : Bytes
local_mode = codes "LOCAL"

-- What a call of `Post` takes from its surroundings: the date, the boundaries that the writers choose, and
-- the orders in which its two maps are visited.
pub record World : Type 0 where
  pub now : Bytes
  pub boundary : ℕ → Bytes
  pub visit_groups : Dict ℤ → Dict ℤ
  pub visit_peers : Dict Peer → Dict Peer
