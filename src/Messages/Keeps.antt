-- ===== src/Messages/Keeps.antt =====
-- A control message keeps what the functions that it may call keep.
use kothawoc.Prelude.{
  ℕ, Bytes, codes, beq, Bool, true, false, ◌&&◌, Option, none, some, List, [], ◌∷◌, if◌then◌else◌,
}
use kothawoc.Serror.{new}
use kothawoc.Text.{split}
use kothawoc.Header.{Header, get}
use kothawoc.Messages.{
  MimePart, Callbacks, Reply, returned, panic, site, add_peer_of, make_group, dispatch,
  check_control, scan, owner,
}

-- Every function of `cmf` keeps a property of the state.
pub record AllKeep {S Card : Type 0} (P : S → Type 0) (cmf : Callbacks S Card) : Type 0 where
  pub new_group :
      (name desc : Bytes) (card : Option Card) (s : S) → P s → P (cmf.new_group name desc card s).1
  pub add_peer : (name : Bytes) (s : S) → P s → P (cmf.add_peer name s).1
  pub cancel : (from id newsgroups : Bytes) (s : S) → P s → P (cmf.cancel from id newsgroups s).1
  pub sendme : (name list options : Bytes) (s : S) → P s → P (cmf.sendme name list options s).1

module _ {S Card : Type 0} (P : S → Type 0) (cmf : Callbacks S Card) (keep : AllKeep P cmf) where
  if-keeps : (b : Bool) (x y : Reply × S) → P x.1 → P y.1 → P (if b then x else y).1
  if-keeps true x y px py = px
  if-keeps false x y px py = py

  add_peer_of-keeps :
      (id : Bytes) (words : List Bytes) (s : S) → P s → P (add_peer_of cmf id words s).1
  unfolding add_peer_of
  add_peer_of-keeps id [] s h = h
  add_peer_of-keeps id (a ∷ []) s h = h
  add_peer_of-keeps id (a ∷ (b ∷ [])) s h = h
  add_peer_of-keeps id (a ∷ (b ∷ (peer ∷ []))) s h =
      if-keeps (beq a id && beq b (codes "peers")) _ _ (keep.add_peer peer s h) h
  add_peer_of-keeps id (a ∷ (b ∷ (peer ∷ (d ∷ ds)))) s h = h

  module _ (decode_card : Bytes → Card) (id : Bytes) (header : Header) (parts : List MimePart)
      (s : S) (h : P s) where
    made :
        (name : Bytes) (r : Reply) (s' : S)
        → P s'
        → P
            (elim r as (λ _. Reply × S) [
              | panic ↦ (panic, s')
              | returned e ↦ elim e as (λ _. Reply × S) [
                | some x ↦ (returned (new (site 118) (some x)), s')
                | none ↦ add_peer_of cmf id (split b'.' name) s'
              ]
            ]).1
    made name panic s' k = k
    made name (returned (some x)) s' k = k
    made name (returned none) s' k = add_peer_of-keeps id (split b'.' name) s' k

    make_group-keeps :
        (flaglen : ℕ) (name : Bytes) → P (make_group decode_card cmf id parts flaglen name s).1
    unfolding make_group
    make_group-keeps flaglen name = go (scan decode_card flaglen parts [] none)
      where
        go :
            (o : Option (Bytes × Option Card))
            → P
                (elim o as (λ _. Reply × S) [
                  | none ↦ (panic, s)
                  | some (description, card) ↦
                      let (r, s') = cmf.new_group name description card s in
                      elim r [
                        | panic ↦ (panic, s')
                        | returned e ↦ elim e [
                          | some x ↦ (returned (new (site 118) (some x)), s')
                          | none ↦ add_peer_of cmf id (split b'.' name) s'
                        ]
                      ]
                ]).1
        go none = h
        go (some (description, card)) =
            made name (cmf.new_group name description card s).0
              (cmf.new_group name description card s).1 (keep.new_group name description card s h)

    dispatch-keeps : (words : List Bytes) → P (dispatch decode_card cmf id header parts words s).1
    unfolding dispatch
    dispatch-keeps [] = h
    dispatch-keeps (word ∷ []) = if-keeps (beq word (codes "cancel")) _ _ h (
        if-keeps (beq word (codes "newgroup")) _ _ h
          (if-keeps (beq word (codes "sendme")) _ _ (keep.sendme _ _ _ s h) h))
    dispatch-keeps (word ∷ (arg ∷ args)) =
        if-keeps (beq word (codes "cancel")) _ _ (keep.cancel _ _ _ s h) (
          if-keeps (beq word (codes "newgroup")) _ _
            (if-keeps (beq (get header (codes "From")) (owner arg)) _ _ (make_group-keeps _ arg) h)
            (if-keeps (beq word (codes "sendme")) _ _ (keep.sendme _ _ _ s h) h))

    -- `CheckControl` keeps a property of the state that the functions of `cmf` keep.
    pub check_control-keeps : P (check_control decode_card cmf id header parts s).1
    unfolding check_control
    check_control-keeps =
        if-keeps (beq (get header (codes "Control")) []) _ _ h
          (dispatch-keeps (split b' ' (get header (codes "Control"))))
