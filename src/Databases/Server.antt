-- ===== src/Databases/Server.antt =====
-- `dbServer` of internal/databases/databases.go: one round of its loop. A command carries the
-- arguments of its message, and the answer is the list that is sent back on its channel.
use kothawoc.Prelude.{ℕ, Bytes, Bool, Option, none, some, List, [], ◌∷◌}
use kothawoc.Prelude.Int.{ℤ, pos}
use kothawoc.Serror.{Error}
use kothawoc.Header.{Header}
use kothawoc.Keytool.{Crypto, EasyEdKey, empty_key}
use kothawoc.Databases.State.{Store, Permissions, Value}
use kothawoc.Databases.Monad.{Db, Outcome, ok, err, panic}
use kothawoc.Databases.Perms
use kothawoc.Databases.Config
use kothawoc.Databases.Articles
use kothawoc.Databases.Articles.{Article, NumberedArticle}
use kothawoc.Databases.Groups
use kothawoc.Databases.Groups.{CardField, Group}
use kothawoc.Databases.Peers
use kothawoc.Databases.Cancel

-- `DatabaseMessage`; a session is the value of its key `Id`, and a message is its header and its
-- `RawMail`.
pub data Command : Type 0 where
  get_perms : Bytes → Bytes → Command
  new_group : Bytes → Bytes → List CardField → Command
  get_article_by_signature get_article_by_id : Bytes → Command
  cancel_message : Bytes → Bytes → Bytes → Command
  config_set : Bytes → Value → Command
  config_get_string config_get_int64 config_get_bytes : Bytes → Command
  config_get_device_key : Command
  list_groups : Bytes → Command
  get_group : Bytes → Bytes → Command
  list_articles : Bytes → ℤ → ℤ → Command
  get_group_number : Bytes → Command
  store_article : Header → Option Bytes → Command
  add_article_to_group : Bytes → Bytes → ℕ → Command
  add_peer : Bytes → Command
  get_peer_list : Command
  group_config_set : Bytes → Bytes → Value → Command
  group_config_get_int64 : Bytes → Bytes → Command
  group_update_subscriptions : Bytes → List Bytes → Command
  get_next_article : ℤ → Command

-- An `interface{}` of an answer. `none` is a nil pointer, channel or error.
pub data Item : Type 0 where
  perms : Option Permissions → Item
  error : Option Error → Item
  article : Option Article → Item
  bytes : Bytes → Item
  int64 : ℤ → Item
  key : EasyEdKey → Item
  groups : Option (List Group × Bool) → Item
  group : Option Group → Item
  ids : Option (List ℕ) → Item
  strings : List Bytes → Item
  numbered : Option NumberedArticle → Item

-- `ret <- []interface{}{a}` for a method that returns an error alone; `none` is a panic.
unfoldable pub answer_error : Outcome (Unit {0}) → Option (List Item)
answer_error (ok _) = some (error none ∷ [])
answer_error (err e) = some (error (some e) ∷ [])
answer_error panic = none

-- `ret <- []interface{}{a, b}`; beside an error stands the value that the method returns with it.
unfoldable pub answer : {A : Type 0} → (A → Item) → Item → Outcome A → Option (List Item)
answer f z (ok a) = some (f a ∷ (error none ∷ []))
answer f z (err e) = some (z ∷ (error (some e) ∷ []))
answer f z panic = none

unfoldable pub answer_perms : Outcome (Option Permissions) → Option (List Item)
answer_perms (ok p) = some (perms p ∷ [])
answer_perms (err _) = none
answer_perms panic = none

-- The state goes on beside what becomes of the result.
abbrev then_answer : {A B : Type 0} → (Outcome A → B) → Outcome A × Store → B × Store
then_answer f (r, s) = (f r, s)

module _ (c : Crypto) (read_message : Bytes → Option (Header × Bytes))
    (remove_peer : Bytes → Db (Unit {0})) where
  -- One command of `dbServer`.
  unfoldable pub serve : Command → Store → Option (List Item) × Store
  unfolding answer answer_error answer_perms
  serve (get_perms torid g) s = then_answer answer_perms (Perms.get_perms torid g s)
  serve (new_group name desc card) s = then_answer answer_error (Groups.new_group name desc card s)
  serve (get_article_by_signature sig) s =
      then_answer (answer (λ a. article (some a)) (article none))
        (Articles.get_article_by_signature read_message sig s)
  serve (get_article_by_id id) s =
      then_answer (answer (λ a. article (some a)) (article none))
        (Articles.get_article_by_id read_message id s)
  serve (cancel_message from id ng) s =
      then_answer answer_error (Cancel.cancel_message read_message remove_peer from id ng s)
  serve (config_set k v) s = then_answer answer_error (Config.config_set k v s)
  serve (config_get_string k) s =
      then_answer (answer bytes (bytes [])) (Config.config_get_string k s)
  serve (config_get_int64 k) s =
      then_answer (answer int64 (int64 (pos 0))) (Config.config_get_int64 k s)
  serve (config_get_bytes k) s = then_answer (answer bytes (bytes [])) (Config.config_get_bytes k s)
  serve config_get_device_key s =
      then_answer (answer key (key empty_key)) (Config.config_get_device_key s)
  serve (list_groups id) s =
      then_answer (answer (λ l. groups (some l)) (groups none)) (Groups.list_groups id s)
  serve (get_group id name) s =
      then_answer (answer (λ g. group (some g)) (group none)) (Groups.get_group id name s)
  serve (list_articles g from to) s =
      then_answer (answer (λ l. ids (some l)) (ids none)) (Groups.list_articles g from to s)
  serve (get_group_number g) s =
      then_answer (answer (λ n. int64 (pos n)) (int64 (pos 0))) (Groups.get_group_number g s)
  serve (store_article h raw) s =
      then_answer (answer (λ n. int64 (pos n)) (int64 (pos 0))) (Articles.store_article h raw s)
  serve (add_article_to_group g mid id) s =
      then_answer answer_error (Articles.add_article_to_group g mid id s)
  serve (add_peer id) s = then_answer answer_error (Peers.add_peer c id s)
  serve get_peer_list s = then_answer (answer strings (strings [])) (Peers.get_peer_list s)
  serve (group_config_set g k v) s = then_answer answer_error (Config.group_config_set g k v s)
  serve (group_config_get_int64 g k) s =
      then_answer (answer int64 (int64 (pos 0))) (Config.group_config_get_int64 g k s)
  serve (group_update_subscriptions g l) s =
      then_answer answer_error (Config.group_update_subscriptions g l s)
  serve (get_next_article n) s =
      then_answer (answer (λ a. numbered (some a)) (numbered none))
        (Articles.get_next_article read_message n s)
