-- ===== src/Databases/Client.antt =====
-- The methods of `BackendDbs` in internal/databases/databases.go: each sends a command to `dbServer`,
-- and takes the answer apart by type assertions.
use kothawoc.Prelude.{ℕ, zero, suc, Bytes, Bool, Option, none, some, List, [], ◌∷◌}
use kothawoc.Prelude.Int.{ℤ}
use kothawoc.Serror.{Error}
use kothawoc.Header.{Header}
use kothawoc.Keytool.{Crypto, EasyEdKey}
use kothawoc.Databases.State.{Store, Permissions, Value}
use kothawoc.Databases.Monad.{Db}
use kothawoc.Databases.Articles.{Article, NumberedArticle}
use kothawoc.Databases.Groups.{CardField, Group}
use kothawoc.Databases.Server.{
  Command, Item, perms, error, article, bytes, int64, key, groups, group, ids, strings, numbered,
  serve,
}

-- The two results of a call, or a panic on either side of the channel.
pub data Returned (A : Type 0) : Type 0 where
  returned : A → Option Error → Returned A
  crashed : Returned A

-- `err, ok := res[i].(error)`: the error that is found, nil where the assertion fails; past the end
-- the index panics.
unfoldable pub error_at : ℕ → List Item → Option (Option Error)
error_at i [] = none
error_at zero (error e ∷ _) = some e
error_at zero (perms _ ∷ _) = some none
error_at zero (article _ ∷ _) = some none
error_at zero (bytes _ ∷ _) = some none
error_at zero (int64 _ ∷ _) = some none
error_at zero (key _ ∷ _) = some none
error_at zero (groups _ ∷ _) = some none
error_at zero (group _ ∷ _) = some none
error_at zero (ids _ ∷ _) = some none
error_at zero (strings _ ∷ _) = some none
error_at zero (numbered _ ∷ _) = some none
error_at (suc i) (_ ∷ items) = error_at i items

-- `res[0].(T)`; the wrong type panics.
abbrev as_perms : Item → Option (Option Permissions)
as_perms (perms p) = some p
as_perms _ = none

abbrev as_article : Item → Option (Option Article)
as_article (article a) = some a
as_article _ = none

abbrev as_bytes : Item → Option Bytes
as_bytes (bytes b) = some b
as_bytes _ = none

abbrev as_int64 : Item → Option ℤ
as_int64 (int64 n) = some n
as_int64 _ = none

abbrev as_key : Item → Option EasyEdKey
as_key (key k) = some k
as_key _ = none

abbrev as_groups : Item → Option (Option (List Group × Bool))
as_groups (groups l) = some l
as_groups _ = none

abbrev as_group : Item → Option (Option Group)
as_group (group g) = some g
as_group _ = none

abbrev as_ids : Item → Option (Option (List ℕ))
as_ids (ids l) = some l
as_ids _ = none

abbrev as_strings : Item → Option (List Bytes)
as_strings (strings l) = some l
as_strings _ = none

abbrev as_numbered : Item → Option (Option NumberedArticle)
as_numbered (numbered a) = some a
as_numbered _ = none

abbrev value_at_0 : {A : Type 0} → (Item → Option A) → List Item → Option A
value_at_0 f [] = none
value_at_0 f (i ∷ _) = f i

module _ {A : Type 0} where
  -- A wrapper that ends `return res[0].(T), err`, where `err` is the asserted error.
  unfoldable pub pass_error : (Item → Option A) → Option (List Item) → Returned A
  unfolding error_at
  pass_error f none = crashed
  pass_error f (some res) = elim (error_at 1 res) [
    | none ↦ crashed
    | some e ↦ elim (value_at_0 f res) [ none ↦ crashed | some v ↦ returned v e ]
  ]

  -- A wrapper that ends `if !ok { return res[0].(T), err }; return res[0].(T), nil`: where the
  -- assertion fails `err` is nil, and where it holds the second `return` drops it.
  unfoldable pub drop_error : (Item → Option A) → Option (List Item) → Returned A
  unfolding error_at
  drop_error f none = crashed
  drop_error f (some res) = elim (error_at 1 res) [
    | none ↦ crashed
    | some _ ↦ elim (value_at_0 f res) [ none ↦ crashed | some v ↦ returned v none ]
  ]

-- A wrapper of a method that returns an error alone, `res[i]`.
unfoldable pub only_error : ℕ → Option (List Item) → Returned (Unit {0})
unfolding error_at
only_error i none = crashed
only_error i (some res) = elim (error_at i res) [ none ↦ crashed | some e ↦ returned tt e ]

-- One that ends `if !ok { return err }; return nil`.
unfoldable pub no_error : Option (List Item) → Returned (Unit {0})
unfolding error_at
no_error none = crashed
no_error (some res) = elim (error_at 0 res) [ none ↦ crashed | some _ ↦ returned tt none ]

-- `GetPerms` asserts one value.
unfoldable pub only_value : {A : Type 0} → (Item → Option A) → Option (List Item) → Returned A
only_value f none = crashed
only_value f (some res) = elim (value_at_0 f res) [ none ↦ crashed | some v ↦ returned v none ]

-- `GetNextArticle` returns nil beside an error.
abbrev unless_error : Returned (Option NumberedArticle) → Returned (Option NumberedArticle)
unless_error (returned v none) = returned v none
unless_error (returned v (some e)) = returned none (some e)
unless_error crashed = crashed

abbrev then_read : {A B : Type 0} → (A → B) → A × Store → B × Store
then_read f (r, s) = (f r, s)

module _ (c : Crypto) (read_message : Bytes → Option (Header × Bytes))
    (remove_peer : Bytes → Db (Unit {0})) where
  abbrev ask : Command → Store → Option (List Item) × Store
  ask = serve c read_message remove_peer

  unfoldable pub get_perms : Bytes → Bytes → Store → Returned (Option Permissions) × Store
  unfolding only_value
  get_perms torid g s = then_read (only_value as_perms) (ask (Command.get_perms torid g) s)

  unfoldable pub new_group : Bytes → Bytes → List CardField → Store → Returned (Unit {0}) × Store
  unfolding only_error
  new_group name desc card s = then_read (only_error 0) (ask (Command.new_group name desc card) s)

  unfoldable pub get_article_by_signature : Bytes → Store → Returned (Option Article) × Store
  unfolding drop_error
  get_article_by_signature sig s =
      then_read (drop_error as_article) (ask (Command.get_article_by_signature sig) s)

  unfoldable pub get_article_by_id : Bytes → Store → Returned (Option Article) × Store
  unfolding drop_error
  get_article_by_id id s = then_read (drop_error as_article) (ask (Command.get_article_by_id id) s)

  unfoldable pub cancel_message : Bytes → Bytes → Bytes → Store → Returned (Unit {0}) × Store
  unfolding no_error
  cancel_message from id ng s = then_read no_error (ask (Command.cancel_message from id ng) s)

  unfoldable pub config_set : Bytes → Value → Store → Returned (Unit {0}) × Store
  unfolding no_error
  config_set k v s = then_read no_error (ask (Command.config_set k v) s)

  unfoldable pub config_get_int64 : Bytes → Store → Returned ℤ × Store
  unfolding drop_error
  config_get_int64 k s = then_read (drop_error as_int64) (ask (Command.config_get_int64 k) s)

  unfoldable pub config_get_bytes : Bytes → Store → Returned Bytes × Store
  unfolding drop_error
  config_get_bytes k s = then_read (drop_error as_bytes) (ask (Command.config_get_bytes k) s)

  unfoldable pub config_get_string : Bytes → Store → Returned Bytes × Store
  unfolding drop_error
  config_get_string k s = then_read (drop_error as_bytes) (ask (Command.config_get_string k) s)

  unfoldable pub config_get_device_key : Store → Returned EasyEdKey × Store
  unfolding pass_error
  config_get_device_key s = then_read (pass_error as_key) (ask Command.config_get_device_key s)

  unfoldable pub list_groups : Bytes → Store → Returned (Option (List Group × Bool)) × Store
  unfolding pass_error
  list_groups id s = then_read (pass_error as_groups) (ask (Command.list_groups id) s)

  unfoldable pub get_group : Bytes → Bytes → Store → Returned (Option Group) × Store
  unfolding pass_error
  get_group id name s = then_read (pass_error as_group) (ask (Command.get_group id name) s)

  unfoldable pub list_articles : Bytes → ℤ → ℤ → Store → Returned (Option (List ℕ)) × Store
  unfolding pass_error
  list_articles g from to s =
      then_read (pass_error as_ids) (ask (Command.list_articles g from to) s)

  unfoldable pub get_group_number : Bytes → Store → Returned ℤ × Store
  unfolding pass_error
  get_group_number g s = then_read (pass_error as_int64) (ask (Command.get_group_number g) s)

  unfoldable pub store_article : Header → Option Bytes → Store → Returned ℤ × Store
  unfolding pass_error
  store_article h raw s = then_read (pass_error as_int64) (ask (Command.store_article h raw) s)

  unfoldable pub add_article_to_group : Bytes → Bytes → ℕ → Store → Returned (Unit {0}) × Store
  unfolding only_error
  add_article_to_group g mid id s =
      then_read (only_error 0) (ask (Command.add_article_to_group g mid id) s)

  unfoldable pub add_peer : Bytes → Store → Returned (Unit {0}) × Store
  unfolding only_error
  add_peer id s = then_read (only_error 0) (ask (Command.add_peer id) s)

  unfoldable pub get_peer_list : Store → Returned (List Bytes) × Store
  unfolding pass_error
  get_peer_list s = then_read (pass_error as_strings) (ask Command.get_peer_list s)

  unfoldable pub group_config_set : Bytes → Bytes → Value → Store → Returned (Unit {0}) × Store
  unfolding only_error
  group_config_set g k v s = then_read (only_error 0) (ask (Command.group_config_set g k v) s)

  unfoldable pub group_config_get_int64 : Bytes → Bytes → Store → Returned ℤ × Store
  unfolding pass_error
  group_config_get_int64 g k s =
      then_read (pass_error as_int64) (ask (Command.group_config_get_int64 g k) s)

  -- The error of this one is looked for at `res[1]`, past the end of the answer.
  unfoldable pub group_update_subscriptions :
      Bytes → List Bytes → Store → Returned (Unit {0}) × Store
  unfolding only_error
  group_update_subscriptions g l s =
      then_read (only_error 1) (ask (Command.group_update_subscriptions g l) s)

  unfoldable pub get_next_article : ℤ → Store → Returned (Option NumberedArticle) × Store
  unfolding pass_error
  get_next_article n s =
      then_read (λ r. unless_error (pass_error as_numbered r)) (ask (Command.get_next_article n) s)
