-- ===== src/Tests/Control.antt =====
-- Control messages to a node `abc` that counts what it is asked to do.
use kothawoc.Prelude.{Bytes, codes, beq, none, List, [], ◌∷◌, ◌++◌, ◌≡◌, ◌≢◌, refl, sym, ◌∙◌, arith}
use kothawoc.Text.{split}
use kothawoc.Header.{Header, get}
use kothawoc.Messages.{MimePart, Callbacks, returned, check_control, owner}
use kothawoc.Messages.Control.{newgroup_other}

-- The names of the groups and peers made so far.
abbrev pub State : Type 0
State = List Bytes

abbrev pub counting : Callbacks State Bytes
counting = record {
  new_group = λ name d c s. (returned none, name ∷ s);
  add_peer = λ p s. (returned none, p ∷ s);
  cancel = λ f m n s. (returned none, s);
  sendme = λ n l o s. (returned none, s);
}

abbrev pub as_card : Bytes → Bytes
as_card b = b

abbrev pub from_to : Bytes → Bytes → Header
from_to sender control = (codes "From", sender ∷ []) ∷ (codes "Control", control ∷ []) ∷ []

abbrev control : Bytes
control = codes "newgroup abc.peers.xyz moderated"

abbrev info : MimePart
info = record {
  header = (codes "Content-Type", codes "application/news-groupinfo;charset=UTF-8" ∷ []) ∷ [];
  content =
      codes "For your newsgroups file:" ++ (13 ∷ 10 ∷ codes "abc.peers.xyz - peer group moderated");
}

control_of_eve : get (from_to (codes "eve") control) (codes "Control") ≡ control
unfolding get kothawoc.Dict.lookup beq kothawoc.Header.canonical
control_of_eve = refl

control_of_abc : get (from_to (codes "abc") control) (codes "Control") ≡ control
unfolding get kothawoc.Dict.lookup beq kothawoc.Header.canonical
control_of_abc = refl

sender_eve : get (from_to (codes "eve") control) (codes "From") ≡ codes "eve"
unfolding get kothawoc.Dict.lookup beq kothawoc.Header.canonical
sender_eve = refl

owner_abc : owner (codes "abc.peers.xyz") ≡ codes "abc"
unfolding owner split
owner_abc = refl

some_control : control ≢ []
some_control h = ground arith

abc_eve : codes "eve" ≢ codes "abc"
abc_eve h = ground arith

newgroup_other_example :
    check_control as_card counting (codes "abc") (from_to (codes "eve") control) (info ∷ []) []
    ≡ (returned none, [])
unfolding get split kothawoc.Dict.lookup beq kothawoc.Header.canonical
newgroup_other_example =
    newgroup_other as_card counting (codes "abc") (from_to (codes "eve") control) (info ∷ []) []
      (codes "abc.peers.xyz") (codes "moderated" ∷ []) (λ h. some_control (sym control_of_eve ∙ h))
      refl (λ h. abc_eve (sym sender_eve ∙ (h ∙ owner_abc)))
