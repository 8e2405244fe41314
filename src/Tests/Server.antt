-- ===== src/Tests/Server.antt =====
-- Runs of the model of internal/databases: the server, its clients, and the states they lead to.
use kothawoc.Prelude.{ℕ, Bytes, some, ◌≡◌, arith, beq_iff}
use kothawoc.Dict.{lookup}
use kothawoc.Table.{find_key}
use kothawoc.Databases.Keeps.{Keeps}
use kothawoc.Databases.Invariant.{IsValid, Listed}
use kothawoc.Tests.Data.{node, lounge, ignore_peer}

pub nothing_lost : (id : Bytes) → Keeps IsValid (ignore_peer id)
nothing_lost id = record { at = λ s h. h }

pub node-IsValid : IsValid node
unfolding lookup find_key
node-IsValid = record {
  articles = ground arith;
  groups = ground arith;
  peers = ground arith;
  listed = at;
}
  where
    at : (name : Bytes) (n : ℕ) → lookup name node.group_articles ≡ some n → Listed node name n
    at name n h = (
      record { id = 7; key = lounge; rest = tt },
      ground (arith, beq_iff lounge name),
      ground (arith, beq_iff lounge name),
    )
