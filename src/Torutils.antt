-- ===== src/Torutils.antt =====
-- internal/torutils/torutils.go: the handshakes of two nodes. `conn` is everything that the other side
-- sends; writes to the connection are collected, and their errors are not looked at.
pub mod Hex
pub mod Reading
pub mod Authentic
pub mod Honest
use kothawoc.Prelude.{
  ℕ, String, Bytes, codes, beq, Bool, true, false, Option, none, some, List, [], ◌∷◌, ◌++◌, length,
  ◌==◌, if◌then◌else◌,
}
use kothawoc.Serror.{Error, Caller, message, serror}
use kothawoc.Text.{split, join}
use kothawoc.Keytool
use kothawoc.Keytool.{
  Crypto, EasyEdKey, Result, empty_key, tor_id, tor_priv_key, set_tor_public_key,
}
use kothawoc.Torutils.Hex.{encode, decode}
use kothawoc.Torutils.Reading.{Line, got, failed, read_line, site}

-- The peer's key, an error, or a panic.
pub data Verdict : Type 0 where
  ok : Bytes → Verdict
  err : Error → Verdict
  panic : Verdict

-- What is written, and the verdict.
abbrev pub Run : Type 0
Run = Bytes × Verdict

abbrev pub refuse : ℕ → String → Run
refuse line text = ([], err (serror (site line) (message text)))

-- The value beside an error is empty.
abbrev or_empty : Result Bytes → Bytes
or_empty (Keytool.ok b) = b
or_empty (Keytool.err _) = []

abbrev pub space : Bytes
space = 32 ∷ []

-- `ed25519.Verify` panics on a key that has not 32 bytes.
unfoldable pub checked : Crypto → Bytes → Bytes → Bytes → Run → Run → Run
checked c key m signature bad good =
    if length key == 32 then (if c.verify key m signature then good else bad) else ([], panic)

-- Something is written before the rest of a run.
abbrev pub after : Bytes → Run → Run
after sent (out, v) = (sent ++ out, v)

module _ (c : Crypto) where
  -- `ServerHandshake` once the client's last line has come; `line` is what was sent before.
  unfoldable pub server_last : Bytes → Bytes → Line → Run
  unfolding checked
  server_last key line (failed _ e) = ([], err (serror (site 182) e))
  server_last key line (got final _) =
      checked c key line (decode final) (refuse 191 "Error: failed to verify server cert.")
        (codes "OK" ++ (10 ∷ []), ok key)

  -- The line that answers a request, without its end; it names the client's identifier.
  unfoldable pub server_line : Bytes → Bytes → Bytes → Bytes → Bytes
  server_line private id random request =
      let hello : Bytes =
        encode (c.tor_public private) ++ (space ++ (id ++ (space ++ encode random))) in
      hello ++ (space ++ encode (c.sign private (hello ++ (space ++ request))))

  -- `ServerHandshake` on the four parts of a request.
  unfoldable pub server_parts : (Bytes → Bool) → Bytes → Bytes → Bytes → List Bytes → Bytes → Run
  unfolding server_last server_line
  server_parts auth private random request (p0 ∷ (p1 ∷ (p2 ∷ (p3 ∷ [])))) rest =
      let key : Bytes = decode p0 in
      let id : Bytes = or_empty (tor_id c (set_tor_public_key key empty_key)) in
      let line : Bytes = server_line private id random request in
      if beq p1 id
      then (if auth key
          then checked c key (join space (p0 ∷ (p1 ∷ (p2 ∷ [])))) (decode p3)
              (refuse 159 "Error: failed to verify client cert.")
              (after (line ++ (10 ∷ [])) (server_last key line (read_line [] rest)))
          else refuse 154 "Error: client TorId refused by callback.")
      else refuse 146 "Error: client TorId and pubkey don't match."
  server_parts auth private random request _ rest =
      refuse 136 "Error, handshake has wrong number of arguments."

  -- `ServerHandshake`; `random` is what `rand.Read` gives.
  unfoldable pub server_handshake : (Bytes → Bool) → Bytes → Bytes → Bytes → Run
  unfolding server_parts
  server_handshake auth private random conn = elim (read_line [] conn) [
    | failed _ e ↦ ([], err e)
    | got request rest ↦ server_parts auth private random request (split b' ' request) rest
  ]

  -- The first line of `ClientHandshake`, without its end.
  unfoldable pub client_line : Bytes → Bytes → Bytes → Bytes
  client_line private id random =
      let hello : Bytes =
        encode (c.tor_public private) ++ (space ++ (id ++ (space ++ encode random))) in
      hello ++ (space ++ encode (c.sign private hello))

  -- `ClientHandshake` once the server's last line has come, complete or not.
  unfoldable pub client_last : Bytes → Bytes → Run
  client_last key response =
      if beq response (codes "OK")
      then ([], ok key)
      else refuse 116 "Error: server refused connection."

  -- The text of a line, complete or not.
  abbrev pub text_of : Line → Bytes
  text_of (got l _) = l
  text_of (failed l _) = l

  -- `ClientHandshake` on the server's answer, whose fourth part must be there.
  unfoldable pub client_parts : Bytes → Bytes → Bytes → List Bytes → Bytes → Run
  unfolding client_last checked
  client_parts private line response (p0 ∷ (p1 ∷ (p2 ∷ (p3 ∷ _)))) rest =
      let key : Bytes = decode p0 in
      checked c key (join space (p0 ∷ (p1 ∷ (p2 ∷ []))) ++ (space ++ line)) (decode p3)
        ([], err (message "faied to verify server cert"))
        (after (encode (c.sign private response) ++ (10 ∷ []))
          (client_last key (text_of (read_line [] rest))))
  client_parts private line response _ rest = ([], panic)

  -- `ClientHandshake` with the private key and the identifier of its key.
  unfoldable pub client_session : Bytes → Bytes → Bytes → Bytes → Run
  unfolding client_line client_parts
  client_session private id random conn =
      let line : Bytes = client_line private id random in
      after (line ++ (10 ∷ [])) (elim (read_line [] conn) [
        | failed _ e ↦ ([], err e)
        | got response rest ↦ client_parts private line response (split b' ' response) rest
      ])

  -- `ClientHandshake`; the address that was dialled is not used.
  unfoldable pub client_handshake : EasyEdKey → Bytes → Bytes → Bytes → Run
  unfolding client_session
  client_handshake my_key random remote_addr conn =
      client_session (or_empty (tor_priv_key c my_key)) (or_empty (tor_id c my_key)) random conn
