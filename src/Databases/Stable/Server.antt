-- ===== src/Databases/Stable/Server.antt =====
-- Every command of `dbServer`.
use kothawoc.Prelude.{Bytes, Option}
use kothawoc.Header.{Header}
use kothawoc.Keytool.{Crypto}
use kothawoc.Databases.State.{Store}
use kothawoc.Databases.Monad.{Db}
use kothawoc.Databases.Server.{Command, serve}
use kothawoc.Databases.Keeps.{Keeps}
use kothawoc.Databases.Stable.{IsStable, Granted}
use kothawoc.Databases.Stable.Articles.{
  add_article_to_group-Keeps, get_article_by_signature-Keeps, get_article_by_id-Keeps,
  get_next_article-Keeps,
}
use kothawoc.Databases.Stable.Groups.{
  get_perms-Keeps, get_group-Keeps, list_groups-Keeps, list_articles-Keeps, get_group_number-Keeps,
}
use kothawoc.Databases.Stable.Rest.{
  config_set-Keeps, config_get_int64-Keeps, config_get_bytes-Keeps, config_get_string-Keeps,
  config_get_device_key-Keeps, group_config_set-Keeps, group_config_get_int64-Keeps,
  group_update_subscriptions-Keeps, add_peer-Keeps, get_peer_list-Keeps, cancel_message-Keeps,
}

module _ {P : Store → Type 0} {May : Header → Bytes → Type 0} (st : IsStable P May) (c : Crypto)
    (read_message : Bytes → Option (Header × Bytes)) (remove_peer : Bytes → Db (Unit {0}))
    (keeps : (id : Bytes) → Keeps P (remove_peer id)) where
  -- Whatever the command, and whichever calls of SQLite or the system fail, an error or a panic on the
  -- way included.
  pub serve-Keeps :
      (cmd : Command)
      → Granted May cmd
      → (s : Store) → P s
      → P (serve c read_message remove_peer cmd s).1
  unfolding serve
  serve-Keeps (Command.get_perms torid g) _ s h = (get_perms-Keeps st torid g).at s h
  serve-Keeps (Command.new_group n d k) _ s h = (st.new_group n d k).at s h
  serve-Keeps (Command.get_article_by_signature sig) _ s h =
      (get_article_by_signature-Keeps st read_message sig).at s h
  serve-Keeps (Command.get_article_by_id id) _ s h =
      (get_article_by_id-Keeps st read_message id).at s h
  serve-Keeps (Command.cancel_message f id ng) _ s h =
      (cancel_message-Keeps st read_message remove_peer keeps f id ng).at s h
  serve-Keeps (Command.config_set k v) _ s h = (config_set-Keeps st k v).at s h
  serve-Keeps (Command.config_get_string k) _ s h = (config_get_string-Keeps st k).at s h
  serve-Keeps (Command.config_get_int64 k) _ s h = (config_get_int64-Keeps st k).at s h
  serve-Keeps (Command.config_get_bytes k) _ s h = (config_get_bytes-Keeps st k).at s h
  serve-Keeps Command.config_get_device_key _ s h = (config_get_device_key-Keeps st).at s h
  serve-Keeps (Command.list_groups id) _ s h = (list_groups-Keeps st id).at s h
  serve-Keeps (Command.get_group id n) _ s h = (get_group-Keeps st id n).at s h
  serve-Keeps (Command.list_articles g from to) _ s h = (list_articles-Keeps st g from to).at s h
  serve-Keeps (Command.get_group_number g) _ s h = (get_group_number-Keeps st g).at s h
  serve-Keeps (Command.store_article hd raw) may s h = (st.store_article hd raw may).at s h
  serve-Keeps (Command.add_article_to_group g m id) _ s h =
      (add_article_to_group-Keeps st g m id).at s h
  serve-Keeps (Command.add_peer id) _ s h = (add_peer-Keeps st c id).at s h
  serve-Keeps Command.get_peer_list _ s h = (get_peer_list-Keeps st).at s h
  serve-Keeps (Command.group_config_set g k v) _ s h = (group_config_set-Keeps st g k v).at s h
  serve-Keeps (Command.group_config_get_int64 g k) _ s h =
      (group_config_get_int64-Keeps st g k).at s h
  serve-Keeps (Command.group_update_subscriptions g l) _ s h =
      (group_update_subscriptions-Keeps st g l).at s h
  serve-Keeps (Command.get_next_article n) _ s h = (get_next_article-Keeps st read_message n).at s h
