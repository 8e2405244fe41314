-- ===== src/Torutils/Authentic.antt =====
-- Whom the handshakes accept.
use kothawoc.Prelude.{
  Bytes, codes, beq_iff, Bool, true, List, [], ◌∷◌, ◌++◌, length, ◌≡◌, refl, arith,
}
use mathlib.Core.Path.{subst}
use kothawoc.Text.{split, join}
use kothawoc.Keytool
use kothawoc.Keytool.{Crypto, EasyEdKey, empty_key, tor_id, set_tor_public_key}
use kothawoc.Torutils.Hex.{decode}
use kothawoc.Torutils.Reading.{Line, got, failed, read_line}
use kothawoc.Torutils.{
  ok, err, Run, server_handshake, server_parts, server_last, server_line, checked, space,
  client_session, client_parts, client_line, client_last, text_of,
}

-- A signature that is checked under a key of 32 bytes.
abbrev pub Signed : Crypto → Bytes → Bytes → Bytes → Type 0
Signed c key m signature = (length key ≡ 32) × (c.verify key m signature ≡ true)

module _ (c : Crypto) where
  -- What a server knows of a key that it accepts.
  pub record Accepted (auth : Bytes → Bool) (private random conn key : Bytes) : Type 0 where
    pub request : Bytes
    pub rest : Bytes
    pub first : read_line [] conn ≡ got request rest
    pub p0 : Bytes
    pub p1 : Bytes
    pub p2 : Bytes
    pub p3 : Bytes
    pub parts : split b' ' request ≡ p0 ∷ p1 ∷ p2 ∷ p3 ∷ []
    pub sent : decode p0 ≡ key
    pub named : tor_id c (set_tor_public_key key empty_key) ≡ Keytool.ok p1
    pub allowed : auth key ≡ true
    pub signed : Signed c key (join space (p0 ∷ p1 ∷ p2 ∷ [])) (decode p3)
    pub final : Bytes
    pub tail : Bytes
    pub second : read_line [] rest ≡ got final tail
    pub answered : Signed c key (server_line c private p1 random request) (decode final)

  last-inv :
      (key line k : Bytes) (l : Line)
      → (server_last c key line l).1 ≡ ok k
      → (final : Bytes) × (tail : Bytes) × (l ≡ got final tail)
        × Signed c key line (decode final)
        × (key ≡ k)
  unfolding server_last
  last-inv key line k (failed l e) h = ground arith
  last-inv key line k (got final tail) h = (final, tail, refl, ground arith, ground arith)

  module _ (auth : Bytes → Bool) (private random conn key request rest : Bytes) where
    parts-inv :
        (p0 p1 p2 p3 : Bytes)
        → (server_parts c auth private random request (p0 ∷ p1 ∷ p2 ∷ p3 ∷ []) rest).1 ≡ ok key
        → (tor_id c (set_tor_public_key (decode p0) empty_key) ≡ Keytool.ok p1)
          × (auth (decode p0) ≡ true)
          × Signed c (decode p0) (join space (p0 ∷ p1 ∷ p2 ∷ [])) (decode p3)
          × ((server_last c
                (decode p0)
                (server_line c private p1 random request)
                (read_line [] rest)).1
              ≡ ok key)
    unfolding server_parts checked tor_id set_tor_public_key
    parts-inv p0 p1 p2 p3 h =
        let id : Bytes = c.v3_onion_id (decode p0) in ground (arith, beq_iff p1 id)

    of_parts :
        (ps : List Bytes)
        → read_line [] conn ≡ got request rest
        → split b' ' request ≡ ps
        → (server_parts c auth private random request ps rest).1 ≡ ok key
        → Accepted auth private random conn key
    unfolding server_parts
    of_parts [] first parts h = ground arith
    of_parts (p0 ∷ []) first parts h = ground arith
    of_parts (p0 ∷ p1 ∷ []) first parts h = ground arith
    of_parts (p0 ∷ p1 ∷ p2 ∷ []) first parts h = ground arith
    of_parts (p0 ∷ p1 ∷ p2 ∷ p3 ∷ p4 ∷ ps) first parts h = ground arith
    of_parts (p0 ∷ p1 ∷ p2 ∷ p3 ∷ []) first parts h =
        let (named, allowed, signed, last) = parts-inv p0 p1 p2 p3 h in
        let (final, tail, second, answered, same) = last-inv _ _ key (read_line [] rest) last in
        subst (Accepted auth private random conn) same (record {
          request = request;
          rest = rest;
          first = first;
          p0 = p0;
          p1 = p1;
          p2 = p2;
          p3 = p3;
          parts = parts;
          sent = refl;
          named = named;
          allowed = allowed;
          signed = signed;
          final = final;
          tail = tail;
          second = second;
          answered = answered;
        })

  -- A server returns a key only if the first line that it reads has four parts: the key, the identifier
  -- of the key, a third one, and a signature under the key of the first three; the callback allows the
  -- key; and the second line is a signature under the key of the line that the server sent in between.
  pub server_handshake-Accepted :
      (auth : Bytes → Bool) (private random conn key : Bytes)
      → (server_handshake c auth private random conn).1 ≡ ok key
      → Accepted auth private random conn key
  unfolding server_handshake
  server_handshake-Accepted auth private random conn key h = go (read_line [] conn) refl h
    where
      go :
          (l : Line)
          → read_line [] conn ≡ l
          → (elim l as (λ _. Run) [
            | failed _ e ↦ ([], err e)
            | got request rest ↦
                server_parts c auth private random request (split b' ' request) rest
          ]).1
            ≡ ok key
          → Accepted auth private random conn key
      go (failed _ e) first h' = ground arith
      go (got request rest) first h' =
          of_parts auth private random conn key request rest (split b' ' request) first refl h'

  -- What a client knows of a key that it accepts; `line` is the client's own.
  pub record Trusted (line conn key : Bytes) : Type 0 where
    pub response : Bytes
    pub rest : Bytes
    pub first : read_line [] conn ≡ got response rest
    pub p0 : Bytes
    pub p1 : Bytes
    pub p2 : Bytes
    pub p3 : Bytes
    pub more : List Bytes
    pub parts : split b' ' response ≡ p0 ∷ p1 ∷ p2 ∷ p3 ∷ more
    pub sent : decode p0 ≡ key
    pub signed : Signed c key (join space (p0 ∷ p1 ∷ p2 ∷ []) ++ (space ++ line)) (decode p3)
    pub welcomed : text_of c (read_line [] rest) ≡ codes "OK"

  module _ (private line conn key response rest : Bytes) where
    parts-client :
        (p0 p1 p2 p3 : Bytes) (more : List Bytes)
        → (client_parts c private line response (p0 ∷ p1 ∷ p2 ∷ p3 ∷ more) rest).1 ≡ ok key
        → Signed c (decode p0) (join space (p0 ∷ p1 ∷ p2 ∷ []) ++ (space ++ line)) (decode p3)
          × (text_of c (read_line [] rest) ≡ codes "OK")
          × (decode p0 ≡ key)
    unfolding client_parts checked client_last
    parts-client p0 p1 p2 p3 more h =
        ground (arith, beq_iff (text_of c (read_line [] rest)) (codes "OK"))

    of_client_parts :
        (ps : List Bytes)
        → read_line [] conn ≡ got response rest
        → split b' ' response ≡ ps
        → (client_parts c private line response ps rest).1 ≡ ok key
        → Trusted line conn key
    unfolding client_parts
    of_client_parts [] first parts h = ground arith
    of_client_parts (p0 ∷ []) first parts h = ground arith
    of_client_parts (p0 ∷ p1 ∷ []) first parts h = ground arith
    of_client_parts (p0 ∷ p1 ∷ p2 ∷ []) first parts h = ground arith
    of_client_parts (p0 ∷ p1 ∷ p2 ∷ p3 ∷ more) first parts h =
        let (signed, welcomed, same) = parts-client p0 p1 p2 p3 more h in
        subst (Trusted line conn) same (record {
          response = response;
          rest = rest;
          first = first;
          p0 = p0;
          p1 = p1;
          p2 = p2;
          p3 = p3;
          more = more;
          parts = parts;
          sent = refl;
          signed = signed;
          welcomed = welcomed;
        })

  -- A client returns a key only if the first line that it reads has at least four parts: the key, two
  -- others, and a signature under the key of the first three and of the client's own line; and what it
  -- reads then, up to a line's end or to an error, is OK.
  pub client_session-Trusted :
      (private id random conn key : Bytes)
      → (client_session c private id random conn).1 ≡ ok key
      → Trusted (client_line c private id random) conn key
  unfolding client_session
  client_session-Trusted private id random conn key h = go (read_line [] conn) refl h
    where
      go :
          (l : Line)
          → read_line [] conn ≡ l
          → (elim l as (λ _. Run) [
            | failed _ e ↦ ([], err e)
            | got response rest ↦
                client_parts c private
                  (client_line c private id random)
                  response
                  (split b' ' response)
                  rest
          ]).1
            ≡ ok key
          → Trusted (client_line c private id random) conn key
      go (failed _ e) first h' = ground arith
      go (got response rest) first h' =
          of_client_parts private (client_line c private id random) conn key response rest
            (split b' ' response) first refl h'
