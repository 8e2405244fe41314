-- ===== src/Databases/Stable/Rest.antt =====
-- The operations on the configuration, on peers and on cancelled messages.
use kothawoc.Prelude.{Bytes, codes, Option, none, some, List, [], ◌∷◌, get_elem?, beq}
use kothawoc.Prelude.Int.{decr}
use kothawoc.Serror.{message, serror}
use kothawoc.Header.{Header, get}
use kothawoc.Dict.{insert}
use kothawoc.Text.{split}
use kothawoc.Keytool.{Crypto}
use kothawoc.Databases.State.{Store, Value}
use kothawoc.Databases.Monad.{Db, site}
use kothawoc.Databases.Keeps.{
  Keeps, pure-Keeps, modify-Keeps, fail-Keeps, crash-Keeps, bind-Keeps, either-Keeps, traced-Keeps,
  or_fail-Keeps, if-Keeps, handle-Keeps, io-Keeps, group_query-Keeps, group_exec-Keeps,
}
use kothawoc.Databases.Config.{
  config_set, config_row, config_get_int64, config_get_bytes, config_get_string,
  config_get_device_key, group_config_set, group_config_get_int64, subscribe,
  group_update_subscriptions,
}
use kothawoc.Databases.Articles.{Article}
use kothawoc.Databases.Peers.{add_peer, get_peer_list}
use kothawoc.Databases.Cancel.{
  index, erase_article, leave_peer, cancel_in, cancel_all, cancel_found, cancel_message,
}
use kothawoc.Databases.Stable.{IsStable, or_fail-query, gets-Keeps}
use kothawoc.Databases.Stable.Articles.{get_article_by_id-Keeps}

module _ {P : Store → Type 0} {May : Header → Bytes → Type 0} (st : IsStable P May) where
  pub config_set-Keeps : (k : Bytes) (v : Value) → Keeps P (config_set k v)
  unfolding config_set
  config_set-Keeps k v = traced-Keeps _ _ (
      io-Keeps st.free _ (
        modify-Keeps (λ s. record s { config = insert k v s.config })
          (λ s h. st.config_free s _ h)))

  config_row-Keeps : (k : Bytes) → Keeps P (config_row k)
  unfolding config_row
  config_row-Keeps k = io-Keeps st.free _ (or_fail-query _ _)

  pub config_get_int64-Keeps : (k : Bytes) → Keeps P (config_get_int64 k)
  unfolding config_get_int64
  config_get_int64-Keeps k =
      traced-Keeps _ _ (bind-Keeps _ _ (config_row-Keeps k) (λ v. or_fail-Keeps _ _))

  pub config_get_bytes-Keeps : (k : Bytes) → Keeps P (config_get_bytes k)
  unfolding config_get_bytes
  config_get_bytes-Keeps k =
      traced-Keeps _ _ (bind-Keeps _ _ (config_row-Keeps k) (λ v. pure-Keeps _))

  pub config_get_string-Keeps : (k : Bytes) → Keeps P (config_get_string k)
  unfolding config_get_string
  config_get_string-Keeps k =
      traced-Keeps _ _ (bind-Keeps _ _ (config_row-Keeps k) (λ v. pure-Keeps _))

  pub config_get_device_key-Keeps : Keeps P config_get_device_key
  unfolding config_get_device_key
  config_get_device_key-Keeps =
      bind-Keeps _ _ (traced-Keeps _ _ (config_get_bytes-Keeps _)) (λ k. pure-Keeps _)

  pub group_config_set-Keeps : (g k : Bytes) (v : Value) → Keeps P (group_config_set g k v)
  unfolding group_config_set
  group_config_set-Keeps g k v =
      handle-Keeps g _ (λ n. traced-Keeps _ _ (group_exec-Keeps st.free st.disk_free n _ _))

  pub group_config_get_int64-Keeps : (g k : Bytes) → Keeps P (group_config_get_int64 g k)
  unfolding group_config_get_int64
  group_config_get_int64-Keeps g k = handle-Keeps g _ (λ n.
      traced-Keeps _ _ (bind-Keeps _ _ (group_query-Keeps st.free n _ _) (λ v. or_fail-Keeps _ _)))

  subscribe-Keeps : (l : List Bytes) → Keeps P (subscribe l)
  unfolding subscribe
  subscribe-Keeps [] = pure-Keeps tt
  subscribe-Keeps (i ∷ l) =
      let rest = subscribe-Keeps l in
      either-Keeps _ _ _ (io-Keeps st.free _ (fail-Keeps _)) (λ _. rest) (λ _. rest)

  pub group_update_subscriptions-Keeps :
      (g : Bytes) (l : List Bytes) → Keeps P (group_update_subscriptions g l)
  unfolding group_update_subscriptions
  group_update_subscriptions-Keeps g l = handle-Keeps g _ (λ n.
      bind-Keeps _ _ (traced-Keeps _ _ (group_exec-Keeps st.free st.disk_free n _ _))
        (λ _. subscribe-Keeps l))

  pub add_peer-Keeps : (c : Crypto) (id : Bytes) → Keeps P (add_peer c id)
  unfolding add_peer
  add_peer-Keeps c id =
      either-Keeps _ _ _ (io-Keeps st.free _ (or_fail-query _ _))
        (λ e.
          if-Keeps _ _ _
            (bind-Keeps _ _
              (either-Keeps _ _ _ config_get_device_key-Keeps (λ _. pure-Keeps _)
                (λ k. pure-Keeps k))
              (λ key. handle-Keeps _ _ (λ n.
                bind-Keeps _ _ (traced-Keeps _ _ (group_exec-Keeps st.free st.disk_free n _ _))
                  (λ _.
                    bind-Keeps _ _ (traced-Keeps _ _ (group_exec-Keeps st.free st.disk_free n _ _))
                      (λ _.
                        bind-Keeps _ _
                          (traced-Keeps _ _ (group_exec-Keeps st.free st.disk_free n _ _))
                          (λ _. traced-Keeps _ _ (st.insert_peer _ _)))))))
            (fail-Keeps _))
        (λ _. fail-Keeps _)

  pub get_peer_list-Keeps : Keeps P get_peer_list
  unfolding get_peer_list
  get_peer_list-Keeps =
      either-Keeps _ _ _ (io-Keeps st.free _ (gets-Keeps _)) (λ _. crash-Keeps) (λ l. pure-Keeps l)

  erase_article-Keeps : (sig : Bytes) → Keeps P (erase_article sig)
  unfolding erase_article
  erase_article-Keeps sig =
      bind-Keeps _ _ (traced-Keeps _ _ (st.remove_file sig))
        (λ _. traced-Keeps _ _ (io-Keeps st.free _ (fail-Keeps _)))

  -- `RemovePeer` is taken to keep the property.
  module _ (read_message : Bytes → Option (Header × Bytes)) (remove_peer : Bytes → Db (Unit {0}))
      (keeps : (id : Bytes) → Keeps P (remove_peer id)) where
    index-Keeps :
        (o : Option Bytes) (k : Bytes → Db (Unit {0}))
        → ((b : Bytes) → Keeps P (k b))
        → Keeps P (index o k)
    index-Keeps none k h = crash-Keeps
    index-Keeps (some b) k h = h b

    leave_peer-Keeps :
        (control second : Bytes) → Keeps P (leave_peer read_message remove_peer control second)
    unfolding leave_peer
    leave_peer-Keeps control second =
        if-Keeps _ _ _
          (index-Keeps (get_elem? (split b' ' control) 1) _ (λ id. traced-Keeps _ _ (keeps id)))
          (pure-Keeps tt)

    cancel_in-Keeps :
        (a : Article) (id g : Bytes) → Keeps P (cancel_in read_message remove_peer a id g)
    unfolding cancel_in
    cancel_in-Keeps a id g =
        bind-Keeps _ _ (index-Keeps (get_elem? (split b'.' g) 1) _ (leave_peer-Keeps _)) (λ _.
          handle-Keeps g _ (λ n.
            bind-Keeps _ _ (traced-Keeps _ _ (group_exec-Keeps st.free st.disk_free n _ _)) (λ _.
              bind-Keeps _ _ (traced-Keeps _ _ (st.update_refs decr id))
                (λ refs. if-Keeps _ _ _ (erase_article-Keeps _) (pure-Keeps tt)))))

    cancel_all-Keeps :
        (a : Article) (id : Bytes) (ms ds : List Bytes)
        → Keeps P (cancel_all read_message remove_peer a id ms ds)
    unfolding cancel_all
    cancel_all-Keeps a id ms [] = pure-Keeps tt
    cancel_all-Keeps a id ms (g ∷ ds) =
        bind-Keeps _ _ (if-Keeps _ _ _ (cancel_in-Keeps a id g) (pure-Keeps tt))
          (λ _. cancel_all-Keeps a id ms ds)

    cancel_found-Keeps :
        (from id newsgroups : Bytes) (a : Article)
        → Keeps P (cancel_found read_message remove_peer from id newsgroups a)
    unfolding cancel_found
    cancel_found-Keeps from id newsgroups a =
        if-Keeps (beq (get a.header (codes "From")) from) _ _
          (cancel_all-Keeps a id (split b',' (get a.header (codes "Newsgroups")))
            (split b',' newsgroups))
          (fail-Keeps (
            serror (site "cancelMessage" 625)
              (message "Cancel message from doesn't match article cancelMsg[%v] article[%v]")))

    pub cancel_message-Keeps :
        (from id newsgroups : Bytes)
        → Keeps P (cancel_message read_message remove_peer from id newsgroups)
    unfolding cancel_message
    cancel_message-Keeps from id newsgroups =
        bind-Keeps _ _ (traced-Keeps _ _ (get_article_by_id-Keeps st read_message id))
          (cancel_found-Keeps from id newsgroups)
