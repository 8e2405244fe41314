-- ===== src/Peering/Queue.antt =====
-- The queue of a peer's feed, and that offering an article changes nothing for those that follow.
use kothawoc.Prelude.{
  ℕ, Bytes, codes, Bool, true, false, inl, inr, Option, some, List, [], ◌∷◌, ◌++◌, ◌≡◌, ◌≢◌, refl,
  arith, Option-cases, ◌∙◌, sym,
}
use kothawoc.Prelude.Int.{ℤ, pos}
use kothawoc.Text.{split}
use kothawoc.Header.{Header, get}
use kothawoc.Dict.{lookup, lookup-insert_self, insert, open_file, open_file-write_file}
use kothawoc.Table.{next_after}
use kothawoc.Databases.State.{Store, GroupDb, int}
use kothawoc.Databases.Perms.Laws.{expected}
use kothawoc.Databases.Articles.{Article}
use kothawoc.Messages.Mime.{Library}
use kothawoc.Messages.Tool.{MessageTool}
use kothawoc.Messages.Body.{from_article}
use kothawoc.Peering.{Peer, Sent, silent, posted, panic, last_message}
use kothawoc.Peering.Feed.{IsFeeding, IsReadable, verdict, outcome, advanced}

-- Every article past the last one can be read and parsed, as the message `mail` of its number, and
-- offering it does not panic.
pub record IsServable (l : Library) (read_message : Bytes → Option (Header × Bytes))
    (random peer : Bytes) (mail : ℕ → MessageTool) (s : Store) : Type 0 where
  pub at :
      (last : ℤ) (num : ℕ)
      → next_after last s.articles.rows ≡ some num
      → (a : Article) × IsReadable read_message s num a
        × (from_article l a ≡ some (mail num))
        × (outcome l random peer (mail num) s ≢ panic)

abbrev texts_of : Sent → List Bytes
texts_of silent = []
texts_of (posted text) = text ∷ []
texts_of panic = []

-- The texts for the articles of a queue, by path and permissions.
unfoldable pub deliveries :
    Library → Bytes → Bytes → (ℕ → MessageTool) → Store → List ℕ → List Bytes
deliveries l random peer mail s [] = []
deliveries l random peer mail s (num ∷ queue) =
    texts_of (outcome l random peer (mail num) s) ++ deliveries l random peer mail s queue

module _ (n : ℕ) (g : GroupDb) (num : ℕ) (s : Store) (file : open_file n s.disk ≡ some g) where
  expected-advanced :
      (torid group : Bytes) → expected torid group (advanced n g num s) ≡ expected torid group s
  expected-advanced torid group = elim (Option-cases (lookup group s.group_articles)) [
    | inl e ↦ ground (arith, e)
    | inr (k, e) ↦ ground (
      arith,
      e,
      file,
      open_file-write_file n k (record g { config = insert last_message (int (pos num)) g.config })
          s.disk,
    )
  ]

  verdict-advanced :
      (peer : Bytes) (groups : List Bytes) (found : Bool)
      → verdict peer groups found (advanced n g num s) ≡ verdict peer groups found s
  unfolding verdict
  verdict-advanced peer [] found = refl
  verdict-advanced peer (group ∷ groups) found = ground (
    arith,
    expected-advanced peer group,
    verdict-advanced peer groups true,
    verdict-advanced peer groups found,
  )

  outcome-advanced :
      (l : Library) (random peer : Bytes) (m : MessageTool)
      → outcome l random peer m (advanced n g num s) ≡ outcome l random peer m s
  unfolding outcome
  outcome-advanced l random peer m =
      rw (verdict-advanced peer (split b',' (get m.article.header (codes "Newsgroups"))) false) refl

  pub deliveries-advanced :
      (l : Library) (random peer : Bytes) (mail : ℕ → MessageTool) (queue : List ℕ)
      → deliveries l random peer mail (advanced n g num s) queue
        ≡ deliveries l random peer mail s queue
  unfolding deliveries
  deliveries-advanced l random peer mail [] = refl
  deliveries-advanced l random peer mail (i ∷ queue) =
      rw (outcome-advanced l random peer (mail i), deliveries-advanced l random peer mail queue)
        refl

  pub advanced-IsServable :
      (l : Library) (read_message : Bytes → Option (Header × Bytes)) (random peer : Bytes)
      (mail : ℕ → MessageTool)
      → IsServable l read_message random peer mail s
      → IsServable l read_message random peer mail (advanced n g num s)
  advanced-IsServable l read_message random peer mail servable = record {
    at = λ last i next.
        let (a, readable, parsed, fine) = servable.at last i next in
        (
          a,
          record {
            row = readable.row;
            raw = readable.raw;
            body = readable.body;
            content = readable.content;
            found = readable.found;
            file = readable.file;
            blank = readable.blank;
            parsed = readable.parsed;
            same = readable.same;
            small = readable.small;
          },
          parsed,
          λ h. fine (sym (outcome-advanced l random peer (mail i)) ∙ h),
        );
  }

pub advanced-IsFeeding :
    (p : Peer) (n : ℕ) (g : GroupDb) (last : ℤ) (num : ℕ) (s : Store)
    → IsFeeding p n g last s
    → IsFeeding p n
        (record g { config = insert last_message (int (pos num)) g.config })
        (pos num)
        (advanced n g num s)
advanced-IsFeeding p n g last num s feeding = record {
  connected = feeding.connected;
  calm = feeding.calm;
  opened = feeding.opened;
  file = ground (
    arith,
    open_file-write_file n n (record g { config = insert last_message (int (pos num)) g.config })
        s.disk,
  );
  config = lookup-insert_self last_message (int (pos num)) g.config;
}
