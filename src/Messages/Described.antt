-- ===== src/Messages/Described.antt =====
-- What a node reads out of the control messages that another has written.
use kothawoc.Prelude.{
  ℕ, Bytes, codes, beq, Bool, Option, none, some, List, [], ◌∷◌, ◌++◌, length, take, get_elem?, ◌≡◌,
  ◌≢◌, refl, arith, sym, ◌∙◌, ap, length-append, All-append,
}
use kothawoc.Text.{split, join}
use kothawoc.Text.Laws.{Lacks, split-part_sep, split-part, split-cons}
use kothawoc.Header.{Header, get}
use kothawoc.Messages.{scan, describe, words, options, group_list}
use kothawoc.Messages.Create.{Field, Stamp, info_text, group_parts, mod_str, sendme_tool}
use kothawoc.Messages.Mime.{Library, line_end}
use kothawoc.Keytool.{Crypto}
use kothawoc.Databases.Groups.{permitted, moderated}

take-length : (xs : List Bytes) (y : Bytes) → take (length xs) (xs ++ (y ∷ [])) ≡ xs
take-length [] y = refl
take-length (x ∷ xs) y = ap (λ (r : List Bytes). x ∷ r) (take-length xs y)

take-all : (xs : List Bytes) → take (length xs) xs ≡ xs
take-all [] = refl
take-all (x ∷ xs) = ap (λ (r : List Bytes). x ∷ r) (take-all xs)

append_nil : {A : Type 0} (s : List A) → s ++ [] ≡ s
append_nil [] = refl
append_nil (c ∷ s) = ap (λ r. c ∷ r) (append_nil s)

split-append : (s t : Bytes) → split 32 (s ++ (32 ∷ t)) ≡ split 32 s ++ split 32 t
unfolding split
split-append [] t = refl
split-append (c ∷ s) t = let (p, ps, e) = split-cons 32 s in ground (arith, split-append s t, e)

Lacks-append : (b : ℕ) (s t : Bytes) → Lacks b s → Lacks b t → Lacks b (s ++ t)
Lacks-append b s t = All-append (λ c. c ≢ b) s t

abbrev first_line : Bytes
first_line = codes "For your newsgroups file:" ++ (13 ∷ [])

-- The second line of the description is the text behind the first line end.
second_line :
    (s : Bytes)
    → Lacks 10 s
    → get_elem? (split 10 (codes "For your newsgroups file:" ++ (13 ∷ 10 ∷ s))) 1 ≡ some s
second_line s lacks = rw (split-part_sep 10 first_line s (ground arith), split-part 10 s lacks) refl

words_flag :
    (g d : Bytes) (ds : List Bytes)
    → words 1 (g ∷ (d ∷ ds) ++ (codes "moderated" ∷ [])) ≡ some (join (codes " ") ds)
unfolding words
words_flag g d ds =
    let size = length-append ds (codes "moderated" ∷ []) in
    rw (size) (ground (arith, take-length ds (codes "moderated")))

words_plain : (g d : Bytes) (ds : List Bytes) → words 0 (g ∷ (d ∷ ds)) ≡ some (join (codes " ") ds)
unfolding words
words_plain g d ds = ground (arith, take-all ds)

described :
    (flaglen : ℕ) (s : Bytes)
    → Lacks 10 s
    → describe flaglen (codes "For your newsgroups file:" ++ (13 ∷ 10 ∷ s))
      ≡ words flaglen (split 32 s)
unfolding describe
described flaglen s lacks = cc (second_line s lacks)

module _ (group description d : Bytes) (ds : List Bytes) (group_line : Lacks 10 group)
    (group_word : Lacks 32 group) (line : Lacks 10 description)
    (split_up : split 32 description ≡ d ∷ ds) where
  group_words :
      (mode : Bytes) (more : List Bytes)
      → split 32 (description ++ mode) ≡ (d ∷ ds) ++ more
      → split 32 (group ++ (32 ∷ (description ++ mode))) ≡ group ∷ ((d ∷ ds) ++ more)
  group_words mode more e =
      split-part_sep 32 group (description ++ mode) group_word
      ∙ ap (λ (r : List Bytes). group ∷ r) e

  with_flag : split 32 (description ++ codes " moderated") ≡ (d ∷ ds) ++ (codes "moderated" ∷ [])
  with_flag =
      split-append description (codes "moderated")
      ∙ (ap (λ (r : List Bytes). r ++ split 32 (codes "moderated")) split_up
          ∙ ap (λ (r : List Bytes). (d ∷ ds) ++ r)
              (split-part 32 (codes "moderated") (ground arith)))

  without_flag : split 32 (description ++ []) ≡ d ∷ ds
  without_flag = ap (split 32) (append_nil description) ∙ split_up

  pub describe_flag :
      describe 1 (info_text group description (mod_str permitted)) ≡ some (join (codes " ") ds)
  unfolding info_text
  describe_flag =
      described 1 (group ++ (32 ∷ (description ++ codes " moderated"))) (
        Lacks-append 10 group _ group_line
          (ground arith, Lacks-append 10 description _ line (ground arith)))
      ∙ (ap (words 1) (group_words (codes " moderated") (codes "moderated" ∷ []) with_flag)
          ∙ words_flag group d ds)

  describe_plain :
      describe 0 (info_text group description (mod_str moderated)) ≡ some (join (codes " ") ds)
  unfolding info_text
  describe_plain =
      described 0 (group ++ (32 ∷ (description ++ [])))
        (Lacks-append 10 group _ group_line (ground arith, Lacks-append 10 description _ line tt))
      ∙ (ap (words 0) (
            group_words [] [] (without_flag ∙ sym (append_nil (d ∷ ds)))
            ∙ ap (λ (r : List Bytes). group ∷ r) (append_nil (d ∷ ds)))
          ∙ words_plain group d ds)

  -- The parts that `CreateNewsGroupMail` writes for a group without a card, whose name has no space and whose
  -- name and description have no line end, are read by the loop of `CheckControl`, with the flag moderated and
  -- without it, as a description that has lost its first word, and no card.
  pub scan-group_parts :
      {Card : Type 0} (decode_card : Bytes → Card)
      → (scan decode_card 1 (group_parts group description (mod_str permitted)) [] none
          ≡ some (join (codes " ") ds, none))
        × (scan decode_card 0 (group_parts group description (mod_str moderated)) [] none
            ≡ some (join (codes " ") ds, none))
  unfolding scan group_parts get kothawoc.Dict.lookup beq kothawoc.Header.canonical
  scan-group_parts decode_card = (ground (arith, describe_flag), ground (arith, describe_plain))

-- From the parts that `CreateSendme` writes, the loop of `CheckControl` reads no list of groups at all, and it
-- takes the list of groups for the options.
pub sendme_tool_misread :
    (l : Library) (c : Crypto) (encode_card : List Field → Option Bytes)
    (to_v4 : List Field → List Field) (nickname language : Bytes) (owner peer_id : Bytes)
    (stamp : Stamp) (newsgroups feed : List Bytes) (cmsgs : Bool)
    → let parts =
        (sendme_tool l c encode_card to_v4 nickname language owner stamp peer_id newsgroups cmsgs
          feed).parts in
      (group_list parts [] ≡ []) × (options parts [] ≡ join line_end newsgroups)
unfolding sendme_tool group_list options get kothawoc.Dict.lookup beq kothawoc.Header.canonical
sendme_tool_misread l c encode_card to_v4 nickname language owner peer_id stamp newsgroups feed
      cmsgs =
    (refl, refl)
