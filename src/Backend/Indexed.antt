-- ===== src/Backend/Indexed.antt =====
-- What a successful `Post` has done.
use kothawoc.Prelude.{
  ℕ, Bytes, beq, beq_self, Bool, true, false, ◌||◌, Option, none, some, List, [], ◌∷◌, ◌++◌, All,
  ◌≡◌, arith, Option-cases, inl, inr, sym,
}
use mathlib.Core.Path.{subst}
use kothawoc.Prelude.Int.{ℤ}
use kothawoc.Header.{Header, get}
use kothawoc.Dict.{Dict, lookup, open_file, open_file-write_file}
use kothawoc.Keytool.{Crypto, EasyEdKey}
use kothawoc.Databases.State.{Store, Entry}
use kothawoc.Databases.Monad.{Db, handle, if_open, group_exec}
use kothawoc.Databases.Groups.{CardField}
use kothawoc.Databases.Articles
use kothawoc.Databases.Articles.{message_id, index_article, has_entry, update_refs}
use kothawoc.Databases.Server.{serve, answer_error}
use kothawoc.Databases.Client
use kothawoc.Databases.Client.{Returned, returned, crashed, only_error}
use kothawoc.Messages
use kothawoc.Messages.{Reply}
use kothawoc.Messages.Mime.{Library}
use kothawoc.Messages.Tool.{MessageTool, raw_mail, write_raw}
use kothawoc.Peering.Manager.{Node, with_store, distribute_article}
use kothawoc.Backend.{World}
use kothawoc.Backend.Posting.{add_to_groups, store, row_number}

-- Is a message-id in the index of a group that is open?
unfoldable pub indexed : Bytes → Bytes → Store → Bool
indexed mid group s = elim (lookup group s.group_articles) [
  | none ↦ false
  | some n ↦ elim (open_file n s.disk) [ none ↦ false | some g ↦ has_entry mid g.articles ]
]

has_entry-append :
    (mid : Bytes) (es : List Entry) (e : Entry)
    → has_entry mid (es ++ (e ∷ [])) ≡ (has_entry mid es || beq e.messageid mid)
unfolding has_entry
has_entry-append mid [] e = ground arith
has_entry-append mid (f ∷ es) e = ground (arith, has_entry-append mid es e)

module _ (c : Crypto) (read_message : Bytes → Option (Header × Bytes))
    (remove_peer : Bytes → Db (Unit {0})) where
  add-indexed :
      (group mid : Bytes) (id : ℕ) (s : Store)
      → (Client.add_article_to_group c read_message remove_peer group mid id s).0 ≡ returned tt none
      → indexed mid group (Client.add_article_to_group c read_message remove_peer group mid id s).1
        ≡ true
  unfolding indexed Client.add_article_to_group only_error serve answer_error
      Articles.add_article_to_group handle if_open group_exec index_article update_refs
  add-indexed group mid id s h = elim (Option-cases (lookup group s.group_articles)) [
    | inl e ↦ ground (arith, h, e)
    | inr (n, e) ↦ elim (Option-cases (open_file n s.disk)) [
      | inl closed ↦ ground (arith, h, e, closed)
      | inr (g, file) ↦ ground (
        arith,
        h,
        e,
        file,
        open_file-write_file n n
            (record g { articles = g.articles ++ (record { id = id; messageid = mid } ∷ []) })
            s.disk,
        has_entry-append mid g.articles (record { id = id; messageid = mid }),
        beq_self mid,
      )
    ]
  ]

  still-indexed :
      (group mid : Bytes) (id : ℕ) (other old : Bytes) (s : Store)
      → indexed old other s ≡ true
      → indexed old other (Client.add_article_to_group c read_message remove_peer group mid id s).1
        ≡ true
  unfolding indexed Client.add_article_to_group only_error serve answer_error
      Articles.add_article_to_group handle if_open group_exec index_article update_refs
  still-indexed group mid id other old s h = elim (Option-cases (lookup group s.group_articles)) [
    | inl e ↦ ground (arith, h, e)
    | inr (n, e) ↦ elim (Option-cases (open_file n s.disk)) [
      | inl closed ↦ ground (arith, h, e, closed)
      | inr (g, file) ↦ elim (Option-cases (lookup other s.group_articles)) [
        | inl e' ↦ ground (arith, h, e')
        | inr (k, e') ↦ ground (
          arith,
          h,
          e,
          file,
          e',
          open_file-write_file n k
              (record g { articles = g.articles ++ (record { id = id; messageid = mid } ∷ []) })
              s.disk,
          has_entry-append old g.articles (record { id = id; messageid = mid }),
        )
      ]
    ]
  ]

  module _ (l : Library) (decode_card : Bytes → List CardField) (my_key : EasyEdKey) where
    add_all-still :
        (groups : Dict ℤ) (mid : Bytes) (id : ℕ) (old other : Bytes) (s : Store)
        → indexed old other s ≡ true
        → indexed old other
            (add_to_groups l c read_message remove_peer decode_card my_key groups mid id s).1
          ≡ true
    unfolding add_to_groups
    add_all-still [] mid id old other s h = h
    add_all-still ((group, k) ∷ groups) mid id old other s h =
        let kept = still-indexed group mid id other old s h in
        ground (
          arith,
          kept,
          add_all-still groups mid id old other
              (Client.add_article_to_group c read_message remove_peer group mid id s).1 kept,
        )

    -- The first of the groups succeeds, and the others follow.
    first :
        (group : Bytes) (k : ℤ) (groups : Dict ℤ) (mid : Bytes) (id : ℕ) (s : Store)
        → (add_to_groups l c read_message remove_peer decode_card my_key
            ((group, k) ∷ groups)
            mid
            id
            s).0
          ≡ Messages.returned none
        → let (r, s') = Client.add_article_to_group c read_message remove_peer group mid id s in
          (r ≡ returned tt none)
          × (add_to_groups l c read_message remove_peer decode_card my_key
                ((group, k) ∷ groups)
                mid
                id
                s
              ≡ add_to_groups l c read_message remove_peer decode_card my_key groups mid id s')
          × ((add_to_groups l c read_message remove_peer decode_card my_key groups mid id s').0
              ≡ Messages.returned none)
    unfolding add_to_groups
    first group k groups mid id s h = (ground (arith, h), ground (arith, h), ground (arith, h))

    add_all-indexed :
        (groups : Dict ℤ) (mid : Bytes) (id : ℕ) (s : Store)
        → (add_to_groups l c read_message remove_peer decode_card my_key groups mid id s).0
          ≡ Messages.returned none
        → All
            (λ (q : Bytes × ℤ).
              indexed mid q.0
                (add_to_groups l c read_message remove_peer decode_card my_key groups mid id s).1
              ≡ true)
            groups
    unfolding add_to_groups
    add_all-indexed [] mid id s h = tt
    add_all-indexed ((group, k) ∷ groups) mid id s h =
        let (good, same, rest) = first group k groups mid id s h in
        let now = add-indexed group mid id s good in
        let s' = (Client.add_article_to_group c read_message remove_peer group mid id s).1 in
        subst
          (λ (r : Reply × Store).
            All (λ (q : Bytes × ℤ). indexed mid q.0 r.1 ≡ true) ((group, k) ∷ groups))
          (sym same)
          (add_all-still groups mid id mid group s' now, add_all-indexed groups mid id s' rest)

    abbrev row_of : Returned ℤ → ℕ
    row_of (returned id _) = row_number id
    row_of crashed = 0

    raw_mail_article :
        (random : Bytes) (m : MessageTool) → (raw_mail l random m).1.article ≡ m.article
    unfolding raw_mail write_raw
    raw_mail_article random m = ground arith

    -- A stage that reports success ends in the loop over the groups.
    store-inv :
        (world : World) (m : MessageTool) (groups : Dict ℤ) (node : Node)
        → (store l c read_message remove_peer decode_card my_key world m groups node).0
          ≡ Messages.returned none
        → (id : ℕ) × (s : Store) × (let (r, s') =
              add_to_groups l c read_message remove_peer decode_card my_key
                (world.visit_groups groups)
                (get m.article.header message_id)
                id
                s in
            (r ≡ Messages.returned none)
            × ((store l c read_message remove_peer decode_card my_key world m groups node).1.store
                ≡ s'))
    unfolding store
    store-inv world m [] node h = ground (arith, h)
    store-inv world m (group ∷ groups) node h =
        let (text, m') = raw_mail l (world.boundary 3) m in
        let a = Client.store_article c read_message remove_peer m'.article.header text node.store in
        (
          row_of a.0,
          (distribute_article c read_message remove_peer my_key world.visit_peers m'
              (with_store a.1 node)).store,
          (
            ground (arith, h, raw_mail_article (world.boundary 3) m),
            ground (arith, h, raw_mail_article (world.boundary 3) m),
          ),
        )

    -- When the last stage of `Post` reports success for a message and its groups, whichever calls failed on
    -- the way, the id of the message is afterwards in the index of every group that was visited.
    pub store-indexed :
        (world : World) (m : MessageTool) (groups : Dict ℤ) (node : Node)
        → (store l c read_message remove_peer decode_card my_key world m groups node).0
          ≡ Messages.returned none
        → All
            (λ (q : Bytes × ℤ).
              indexed
                (get m.article.header message_id)
                q.0
                (store l c read_message remove_peer decode_card my_key world m groups node).1.store
              ≡ true)
            (world.visit_groups groups)
    store-indexed world m groups node h =
        let (id, s, (good, same)) = store-inv world m groups node h in
        let mid = get m.article.header message_id in
        subst
          (λ (x : Store).
            All (λ (q : Bytes × ℤ). indexed mid q.0 x ≡ true) (world.visit_groups groups))
          (sym same) (add_all-indexed (world.visit_groups groups) mid id s good)
