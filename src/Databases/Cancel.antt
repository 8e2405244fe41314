-- ===== src/Databases/Cancel.antt =====
-- `cancelMessage` of internal/databases/databases.go.
pub mod Laws
use kothawoc.Prelude.{
  ℕ, zero, suc, Bytes, codes, beq, Bool, true, false, Option, none, some, List, [], ◌∷◌, get_elem?,
  if◌then◌else◌,
}
use kothawoc.Prelude.Int.{ℤ, pos, negsuc, decr}
use kothawoc.Serror.{Error, sentinel, serror, message, syntax_error, io_error, constraint}
use kothawoc.Dict.{Dict, lookup}
use kothawoc.Text.{split}
use kothawoc.Header.{Header, get}
use kothawoc.Databases.State.{Store, GroupDb, Entry}
use kothawoc.Databases.Monad.{
  Db, Outcome, ok, err, panic, ◌>>=◌, ◌>>◌, pure, fail, crash, io, modify, traced, site, handle,
  group_exec,
}
use kothawoc.Databases.Articles.{Article, get_article_by_id, update_refs, signature_header}

-- `containsStr`
unfoldable pub contains_str : List Bytes → Bytes → Bool
contains_str [] v = false
contains_str (s ∷ elems) v = let rest = contains_str elems v in if beq v s then true else rest

-- `DELETE FROM articles WHERE messageid=?` on a group's index.
unfoldable pub drop_entry : Bytes → List Entry → List Entry
drop_entry mid [] = []
drop_entry mid (e ∷ es) =
    let rest = drop_entry mid es in if beq e.messageid mid then rest else e ∷ rest

unfoldable pub remove_key : Bytes → Dict Bytes → Dict Bytes
remove_key k [] = []
remove_key k ((j, v) ∷ d) = let rest = remove_key k d in if beq j k then rest else (j, v) ∷ rest

-- `os.Remove` of the article's file; a file that is not there is an error.
unfoldable pub remove_file : Bytes → Db (Unit {0})
remove_file signature = io (λ s. elim (lookup signature s.files) [
  | none ↦ (err (sentinel io_error), s)
  | some _ ↦ (ok tt, record s { files = remove_key signature s.files })
])

abbrev is_zero : ℤ → Bool
is_zero (pos zero) = true
is_zero (pos (suc _)) = false
is_zero (negsuc _) = false

-- `x[i]` panics past the end.
abbrev pub index : {A : Type 0} → Option Bytes → (Bytes → Db A) → Db A
index none k = crash
index (some b) k = k b

-- What is left of the article's record when no group holds it: `DELETE articles WHERE …` is no SQL
-- statement, since FROM is missing.
unfoldable pub erase_article : Bytes → Db (Unit {0})
unfolding remove_file
erase_article signature =
    traced (site "cancelMessage" 682) (remove_file signature)
    >> traced (site "cancelMessage" 688) (io (fail (sentinel syntax_error)))

-- `cmf.RemovePeer` is a parameter.
module _ (read_message : Bytes → Option (Header × Bytes))
    (remove_peer : Bytes → Db (Unit {0})) where
  -- The switch on the second part of the group's name.
  unfoldable pub leave_peer : Bytes → Bytes → Db (Unit {0})
  leave_peer control second =
      if beq second (codes "peers")
      then index (get_elem? (split b' ' control) 1)
          (λ peer_id. traced (site "cancelMessage" 649) (remove_peer peer_id))
      else pure tt

  -- One round of the loop, for a group that the article is in.
  unfoldable pub cancel_in : Article → Bytes → Bytes → Db (Unit {0})
  unfolding leave_peer drop_entry update_refs erase_article
  cancel_in article msg_id grp =
      index (get_elem? (split b'.' grp) 1) (leave_peer (get article.header (codes "Control")))
      >> handle grp (λ n.
        traced (site "cancelMessage" 662) (
          group_exec n (λ g. some (record g { articles = drop_entry msg_id g.articles }))
            constraint)
        >> (traced (site "cancelMessage" 672) (update_refs decr msg_id) >>= λ refs.
            if is_zero refs then erase_article (get article.header signature_header) else pure tt))

  -- The loop over the groups to delete from.
  unfoldable pub cancel_all : Article → Bytes → List Bytes → List Bytes → Db (Unit {0})
  unfolding cancel_in contains_str
  cancel_all article msg_id msg_groups [] = pure tt
  cancel_all article msg_id msg_groups (grp ∷ del_groups) =
      (if contains_str msg_groups grp then cancel_in article msg_id grp else pure tt)
      >> cancel_all article msg_id msg_groups del_groups

  -- `cancelMessage` once the article is found.
  unfoldable pub cancel_found : Bytes → Bytes → Bytes → Article → Db (Unit {0})
  unfolding cancel_all
  cancel_found from msg_id newsgroups article =
      if beq (get article.header (codes "From")) from
      then cancel_all article msg_id (split b',' (get article.header (codes "Newsgroups")))
          (split b',' newsgroups)
      else fail (
          serror (site "cancelMessage" 625)
            (message "Cancel message from doesn't match article cancelMsg[%v] article[%v]"))

  -- `cancelMessage`
  unfoldable pub cancel_message : Bytes → Bytes → Bytes → Db (Unit {0})
  unfolding cancel_found
  cancel_message from msg_id newsgroups =
      traced (site "cancelMessage" 620) (get_article_by_id read_message msg_id)
      >>= cancel_found from msg_id newsgroups
