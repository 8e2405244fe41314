-- ===== src/System/Files.antt =====
-- What stands in the directory of articles of a node.
use kothawoc.Prelude.{
  ◌++◌, append-nil, append_assoc, sym, ap, ◌∙◌, Bytes, codes, beq, Bool, true, false, Option, some,
  List, [], ◌∷◌, ◌≡◌, arith, if◌then◌else◌,
}
use kothawoc.Header.{Header, get, get-set, canonical, set}
use kothawoc.Dict.{Dict, lookup}
use kothawoc.Dict.Entries.{Entries, Entries-insert, Entries-lookup}
use kothawoc.Table.{Table}
use kothawoc.Keytool.{Crypto, EasyEdKey}
use kothawoc.Databases.State.{PeerData}
use kothawoc.Databases.Monad.{Db}
use kothawoc.Databases.Keeps.{Keeps}
use kothawoc.Databases.Groups.{CardField}
use kothawoc.Databases.Articles.{signature_header}
use kothawoc.Databases.Articles.Writing.{IsBeginning}
use kothawoc.Databases.Cancel.{remove_key}
use kothawoc.Databases.Stable.Lasting.{Lasts, Lasts-IsStable}
use kothawoc.Databases.Stable.Starting.{new_backend_dbs-Lasts}
use kothawoc.Databases.Stable.Server.{serve-Keeps}
use kothawoc.Databases.Invariant.Reachable.{ended}
use kothawoc.Messages.Mime.{Library}
use kothawoc.Messages.Tool.{MessageTool, raw_mail, write_raw, verify, with_field}
use kothawoc.Peering.Manager.{Node}
use kothawoc.System.{Reached}
use kothawoc.System.Keeps.{Reached-store}

module _ (G : Bytes → Bytes → Type 0) where
  Entries-remove_key : (k : Bytes) (d : Dict Bytes) → Entries G d → Entries G (remove_key k d)
  unfolding remove_key
  Entries-remove_key k [] h = tt
  Entries-remove_key k ((j, w) ∷ d) h = go (beq j k) (Entries-remove_key k d h.1)
    where
      go :
          (b : Bool)
          → Entries G (remove_key k d)
          → Entries G (if b then remove_key k d else (j, w) ∷ remove_key k d)
      go true rest = rest
      go false rest = (h.0, rest)

-- A text under a signature: that of a message with that signature which `Verify` accepted, with a path
-- of its own, or a beginning of it.
pub record IsGenuine (l : Library) (c : Crypto) (signature text : Bytes) : Type 0 where
  pub message : MessageTool
  pub random : Bytes
  pub random' : Bytes
  pub path : Bytes
  pub accepted : (verify l c random message).0 ≡ some true
  pub signed : get message.article.header signature_header ≡ signature
  pub whole : Bytes
  pub written :
      (raw_mail l random' (with_field l (codes "Path") path (verify l c random message).1)).0
      ≡ some whole
  pub beginning : IsBeginning text whole

module _ (l : Library) (c : Crypto) where
  raw_mail-header :
      (random : Bytes) (m : MessageTool) → (raw_mail l random m).1.article.header ≡ m.article.header
  unfolding raw_mail write_raw
  raw_mail-header random m = ground arith

  verify-header :
      (random : Bytes) (m : MessageTool) → (verify l c random m).1.article.header ≡ m.article.header
  unfolding verify write_raw
  verify-header random m = ground arith

  path_signature :
      (h : Header) (path : Bytes)
      → get (set h (codes "Path") path) signature_header ≡ get h signature_header
  unfolding canonical beq
  path_signature h path = simp get-set

  -- What `Post` stores may be stored.
  sent_signature :
      (m : MessageTool) (random random' path : Bytes)
      → get m.article.header signature_header
        ≡ get
            (raw_mail l random'
              (with_field l (codes "Path") path (verify l c random m).1)).1.article.header
            signature_header
  sent_signature m random random' path = ground (
    arith,
    raw_mail-header random' (with_field l (codes "Path") path (verify l c random m).1),
    path_signature (verify l c random m).1.article.header path,
    verify-header random m,
  )

  -- A beginning of a beginning.
  shortened :
      {signature part text : Bytes}
      → IsGenuine l c signature text
      → IsBeginning part text
      → IsGenuine l c signature part
  shortened {part} g (missing, e) = record {
    message = g.message;
    random = g.random;
    random' = g.random';
    path = g.path;
    accepted = g.accepted;
    signed = g.signed;
    whole = g.whole;
    written = g.written;
    beginning = (
      missing ++ g.beginning.0,
      sym (append_assoc part missing g.beginning.0)
          ∙ (ap (λ (x : Bytes). x ++ g.beginning.0) e ∙ g.beginning.1),
    );
  }

  abbrev Genuine : Dict Bytes → Type 0
  Genuine files = Entries (IsGenuine l c) files

  abbrev May : Header → Bytes → Type 0
  May h raw = IsGenuine l c (get h signature_header) raw

  module _ (read_message : Bytes → Option (Header × Bytes)) (remove_peer : Bytes → Db (Unit {0}))
      (decode_card : Bytes → List CardField) (my_key : EasyEdKey) where
    abbrev Q : Table PeerData → Dict Bytes → Type 0
    Q peers files = Genuine files

    -- In every state that a node reaches, by whatever is posted to it, asked of it and done to its peers,
    -- in whatever order, with the ends of its process and the faults of SQLite and the system in
    -- between, every file of the directory of articles holds the text of a message that `Verify`
    -- accepted, under the signature of that message, with nothing changed in it after that but the path
    -- and the line ends; or the beginning of such a text, as a failed write leaves it; if `RemovePeer`
    -- keeps this.
    pub Reached-IsGenuine :
        ((id : Bytes) → Keeps (λ s. Entries (IsGenuine l c) s.files) (remove_peer id))
        → (node : Node) (signature text : Bytes)
        → Reached l c read_message remove_peer decode_card my_key node
        → lookup signature node.store.files ≡ some text
        → IsGenuine l c signature text
    unfolding lookup
    Reached-IsGenuine keeps node signature text reached found =
        Entries-lookup (IsGenuine l c) signature text node.store.files
          (Reached-store {P = Lasts Q} {May = May} l c read_message remove_peer decode_card my_key
            (serve-Keeps
              (Lasts-IsStable Q (λ torid d n t t' f e h. h)
                (λ k t f h. Entries-remove_key (IsGenuine l c) k f h)
                (λ hd raw may part begins t f h.
                  Entries-insert (IsGenuine l c) _ part f (shortened may begins) h))
              c read_message remove_peer keeps)
            (λ world m path raw good written. record {
              message = m;
              random = world.boundary 2;
              random' = world.boundary 3;
              path = path;
              accepted = good;
              signed = sent_signature m (world.boundary 2) (world.boundary 3) path;
              whole = _;
              written = written;
              beginning = ([], append-nil _);
            })
            (λ t s h. (new_backend_dbs-Lasts Q t).at (ended s) h) (λ faults torn. tt) node reached)
          found
