-- ===== src/Backend/Talk.antt =====
-- The two backends of internal/nntpbackend behind one interface, and a session that goes from one to the
-- other: emptybackend.go, and `Backend` as go-nntp uses it.
use kothawoc.Prelude.{
  Bytes, Bool, true, false, Option, none, some, List, [], ◌∷◌, ◌++◌, All, ◌≡◌, refl, arith,
}
use kothawoc.Prelude.Int.{ℤ}
use kothawoc.Serror.{sentinel, not_authenticated}
use kothawoc.Header.{Header}
use kothawoc.Keytool.{Crypto, EasyEdKey}
use kothawoc.Databases.State.{Store}
use kothawoc.Databases.Monad.{Db}
use kothawoc.Databases.Articles.{Article}
use kothawoc.Databases.Groups.{CardField, Group}
use kothawoc.Databases.Client.{Returned, returned}
use kothawoc.Messages
use kothawoc.Messages.{Reply}
use kothawoc.Messages.Mime.{Library}
use kothawoc.Peering.Manager.{Node, with_store}
use kothawoc.Backend.{Session, World}
use kothawoc.Backend.Reading
use kothawoc.Backend.Reading.{Stream}
use kothawoc.Backend.Posting

-- The two implementations of `Backend`.
pub data Handler : Type 0 where
  empty news : Handler

-- A call of a method of `Backend`.
pub data Request : Type 0 where
  list_groups authorized allow_post : Request
  get_group get_article_with_no_group : Bytes → Request
  get_article : Bytes → Bytes → Request
  get_articles : Bytes → ℤ → ℤ → Request
  authenticate : Bytes → Bytes → Request
  post : World → Article → Request

-- What it returns; `swapped` is the backend that `Authenticate` returns, nil for the same one.
pub data Response : Type 0 where
  groups : Returned (Option (List Group × Bool)) → Response
  group : Returned (Option Group) → Response
  article : Returned (Option Article) → Response
  articles : Returned (Option Stream) → Response
  flag : Bool → Response
  swapped : Option Handler → Response
  posted : Reply → Response

abbrev refused : {A : Type 0} → Returned (Option A)
refused = returned none (some (sentinel not_authenticated))

-- The methods of `EmptyNntpBackend`.
unfoldable pub answer_empty : Request → Response
answer_empty list_groups = groups refused
answer_empty (get_group name) = group refused
answer_empty (get_article_with_no_group id) = article refused
answer_empty (get_article name id) = article refused
answer_empty (get_articles name from to) = articles refused
answer_empty authorized = flag false
answer_empty (authenticate user pass) = swapped (some news)
answer_empty allow_post = flag false
answer_empty (post world a) = posted (Messages.returned (some (sentinel not_authenticated)))

-- A result that leaves the rest of the node alone.
abbrev reading : {A : Type 0} → (A → Response) → Node → A × Store → Response × Node
reading f node (r, s) = (f r, with_store s node)

module _ (l : Library) (c : Crypto) (read_message : Bytes → Option (Header × Bytes))
    (remove_peer : Bytes → Db (Unit {0})) (decode_card : Bytes → List CardField)
    (my_key : EasyEdKey) (session : Session) where
  -- The methods of `NntpBackend`.
  unfoldable pub answer_news : Request → Node → Response × Node
  answer_news list_groups node =
      reading groups node (Reading.list_groups c read_message remove_peer session node.store)
  answer_news (get_group name) node =
      reading group node (Reading.get_group c read_message remove_peer session name node.store)
  answer_news (get_article_with_no_group id) node =
      reading article node
        (Reading.get_article_with_no_group c read_message remove_peer session id node.store)
  answer_news (get_article name id) node =
      reading article node
        (Reading.get_article c read_message remove_peer session name id node.store)
  answer_news (get_articles name from to) node =
      reading articles node
        (Reading.get_articles c read_message remove_peer session name from to node.store)
  answer_news authorized node = (flag true, node)
  answer_news (authenticate user pass) node = (swapped none, node)
  answer_news allow_post node = (flag true, node)
  answer_news (post world a) node =
      let (r, node') =
        Posting.post l c read_message remove_peer decode_card my_key world session a node in
      (posted r, node')

  unfoldable pub answer : Handler → Request → Node → Response × Node
  unfolding answer_empty answer_news
  answer empty request node = (answer_empty request, node)
  answer news request node = answer_news request node

  -- The backend of the session after a response.
  unfoldable pub next_handler : Handler → Response → Handler
  next_handler h (swapped (some h')) = h'
  next_handler h (swapped none) = h
  next_handler h (groups _) = h
  next_handler h (group _) = h
  next_handler h (article _) = h
  next_handler h (articles _) = h
  next_handler h (flag _) = h
  next_handler h (posted _) = h

  -- A session, request by request.
  unfoldable pub talk : Handler → List Request → Node → List Response × Node
  unfolding answer next_handler
  talk h [] node = ([], node)
  talk h (request ∷ requests) node =
      let (r, node') = answer h request node in
      let (rs, node'') = talk (next_handler h r) requests node' in (r ∷ rs, node'')

  -- A request other than `Authenticate`.
  abbrev pub before_authentication : Request → Bool
  before_authentication (authenticate user pass) = false
  before_authentication list_groups = true
  before_authentication authorized = true
  before_authentication allow_post = true
  before_authentication (get_group _) = true
  before_authentication (get_article_with_no_group _) = true
  before_authentication (get_article _ _) = true
  before_authentication (get_articles _ _ _) = true
  before_authentication (post _ _) = true

  stays_empty :
      (request : Request)
      → before_authentication request ≡ true
      → next_handler empty (answer_empty request) ≡ empty
  unfolding next_handler answer_empty
  stays_empty list_groups h = refl
  stays_empty authorized h = refl
  stays_empty allow_post h = refl
  stays_empty (get_group _) h = refl
  stays_empty (get_article_with_no_group _) h = refl
  stays_empty (get_article _ _) h = refl
  stays_empty (get_articles _ _ _) h = refl
  stays_empty (authenticate _ _) h = ground (arith, h)
  stays_empty (post _ _) h = refl

  -- Is this the refusal of a request: nothing of the news, no permission, and an error where there can be
  -- one?
  abbrev pub IsRefusal : Request → Response → Type 0
  IsRefusal list_groups r = r ≡ groups (returned none (some (sentinel not_authenticated)))
  IsRefusal (get_group _) r = r ≡ group (returned none (some (sentinel not_authenticated)))
  IsRefusal (get_article_with_no_group _) r =
      r ≡ article (returned none (some (sentinel not_authenticated)))
  IsRefusal (get_article _ _) r = r ≡ article (returned none (some (sentinel not_authenticated)))
  IsRefusal (get_articles _ _ _) r =
      r ≡ articles (returned none (some (sentinel not_authenticated)))
  IsRefusal authorized r = r ≡ flag false
  IsRefusal allow_post r = r ≡ flag false
  IsRefusal (post _ _) r = r ≡ posted (Messages.returned (some (sentinel not_authenticated)))
  IsRefusal (authenticate _ _) r = ⊥

  -- The responses refuse the requests one by one.
  abbrev pub AllRefused : List Request → List Response → Type 0
  AllRefused [] [] = Unit
  AllRefused [] (_ ∷ _) = ⊥
  AllRefused (_ ∷ _) [] = ⊥
  AllRefused (request ∷ requests) (r ∷ rs) = IsRefusal request r × AllRefused requests rs

  answer_empty-IsRefusal :
      (request : Request)
      → before_authentication request ≡ true
      → IsRefusal request (answer_empty request)
  unfolding answer_empty
  answer_empty-IsRefusal list_groups h = refl
  answer_empty-IsRefusal authorized h = refl
  answer_empty-IsRefusal allow_post h = refl
  answer_empty-IsRefusal (get_group _) h = refl
  answer_empty-IsRefusal (get_article_with_no_group _) h = refl
  answer_empty-IsRefusal (get_article _ _) h = refl
  answer_empty-IsRefusal (get_articles _ _ _) h = refl
  answer_empty-IsRefusal (authenticate _ _) h = ground (arith, h)
  answer_empty-IsRefusal (post _ _) h = refl

  -- Every request that a session sends before it authenticates itself is refused: no groups, no group, no
  -- article and no list of articles is shown, reading and posting are not allowed, and a posting is
  -- turned down, each with the error that the session is not authenticated, and the node stays as it
  -- is; then `Authenticate` with any user and any password opens the news backend, which answers all that
  -- comes after.
  pub talk-authenticate :
      (requests later : List Request) (user pass : Bytes) (node : Node)
      → All (λ r. before_authentication r ≡ true) requests
      → let (after, node') = talk news later node in
        (rs : List Response) × (talk empty (requests ++ (authenticate user pass ∷ later)) node
          ≡ (rs ++ (swapped (some news) ∷ after), node'))
        × AllRefused requests rs
  unfolding talk answer answer_empty next_handler
  talk-authenticate [] later user pass node h = ([], refl, tt)
  talk-authenticate (request ∷ requests) later user pass node h =
      let (rs, same, refused_all) = talk-authenticate requests later user pass node h.1 in
      (
        answer_empty request ∷ rs,
        ground (arith, stays_empty request h.0, same),
        (answer_empty-IsRefusal request h.0, refused_all),
      )
