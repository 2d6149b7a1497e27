-- ===== src/Agent/RoundTrip.antt =====
-- A list of identities is read back as it was written.
use ssh_agent_bridge.Base.{
  ◌%◌, ◌≤◌, ◌<◌, ◌≡◌, refl, sym, subst, ap, ◌∙◌, List, [], ◌∷◌, ◌++◌, append_assoc, append-nil,
  length, length-append, All, All-append, arith,
}
use ssh_agent_bridge.Wire.{Bytes, IsByte, SshMessageEnvelope, IsWellFormed, u32_mod}
use ssh_agent_bridge.Wire.Words.{store_le-IsByte}
use ssh_agent_bridge.Wire.Reader.{SshAgentMessageBufferReader, read_byte, read_uint32, open_reader}
use ssh_agent_bridge.Wire.Writer.{append, init, write_byte, write_uint32}
use ssh_agent_bridge.Wire.RoundTrip.{
  be32, string_bytes, length-string_bytes, append-append, append-IsWellFormed, init-IsWellFormed,
  Rest, Reads, open_reader-Rest, read_byte-Reads, read_uint32-Reads, and_then-Reads,
}
use ssh_agent_bridge.Agent.Strings.{
  strings_onto, write_strings, AreBytes, string-lt, write_strings-append, strings_onto-IsByte,
  read_string_then,
}
use ssh_agent_bridge.Agent.{ssh2_agent_identities_answer}
use ssh_agent_bridge.Agent.Identity
use ssh_agent_bridge.Agent.Identity.{SshAgentIdentity}
use ssh_agent_bridge.Agent.Answer
use ssh_agent_bridge.Agent.Answer.{SshAgentMessageRequestIdentitiesAnswer}

-- The strings of a list of identities, in the order of the wire.
abbrev pub strings : List SshAgentIdentity → List Bytes
strings [] = []
strings (i ∷ is) = i.blob ∷ i.comment ∷ strings is

-- The answer that lists `is`, as bytes.
abbrev pub answer_bytes : List SshAgentIdentity → Bytes
answer_bytes is = ssh2_agent_identities_answer ∷ (be32 (length is) ++ strings_onto (strings is) [])

-- The identities are bytes, and their answer fits in a 32-bit length.
pub record IsSendable (is : List SshAgentIdentity) : Type 0 where
  pub in_range : AreBytes (strings is)
  pub fits : length (answer_bytes is) < u32_mod

length-strings_onto-le :
    (is : List SshAgentIdentity) → length is ≤ length (strings_onto (strings is) [])
length-strings_onto-le [] = omega arith
length-strings_onto-le (i ∷ is) = omega (
  arith,
  length-append (string_bytes i.blob) (string_bytes i.comment ++ strings_onto (strings is) []),
  length-append (string_bytes i.comment) (strings_onto (strings is) []),
  length-string_bytes i.blob,
  length-strings_onto-le is,
)

write_identities-strings :
    (is : List SshAgentIdentity) (m : SshMessageEnvelope)
    → Answer.write_identities is m ≡ write_strings (strings is) m
unfolding Answer.write_identities Identity.to_buffer
write_identities-strings [] m = refl
write_identities-strings (i ∷ is) m = write_identities-strings is (Identity.to_buffer i m)

module _ (is : List SshAgentIdentity) (ok : IsSendable is) where
  parts : (length is < u32_mod) × (length (strings_onto (strings is) []) < u32_mod)
  parts =
      let sum = length-append (be32 (length is)) (strings_onto (strings is) []) in
      let few = length-strings_onto-le is in
      (omega (arith, sum, few, ok.fits), omega (arith, sum, ok.fits))

  -- `ToBuffer` after `Init` leaves exactly the bytes of the answer in the envelope.
  pub to_buffer-init :
      (m : SshMessageEnvelope)
      → Answer.to_buffer (record { identities = is }) (init m) ≡ append (answer_bytes is) (init m)
  unfolding Answer.to_buffer write_uint32 write_byte init
  to_buffer-init m =
      let small : length is % u32_mod ≡ length is = omega (arith, parts.0) in
      let typed = append (ssh2_agent_identities_answer ∷ []) (init m) in
      let counted = append (be32 (length is)) typed in
      rw small (
        write_identities-strings is counted
        ∙ write_strings-append (strings is) counted (omega arith) parts.1
        ∙ append-append (be32 (length is)) (strings_onto (strings is) []) typed
        ∙ append-append (ssh2_agent_identities_answer ∷ []) _ (init m))

  answer_bytes-IsByte : All IsByte (answer_bytes is)
  answer_bytes-IsByte = (
    omega arith,
    All-append IsByte (be32 (length is)) _ (store_le-IsByte 4 _)
        (strings_onto-IsByte (strings is) ok.in_range),
  )

  pub to_buffer-IsWellFormed :
      (m : SshMessageEnvelope)
      → IsWellFormed (Answer.to_buffer (record { identities = is }) (init m))
  unfolding init
  to_buffer-IsWellFormed m = rw (to_buffer-init m) (
      append-IsWellFormed (answer_bytes is) (init m) (init-IsWellFormed m) answer_bytes-IsByte
        (omega (arith, ok.fits)))

strings_onto-append :
    (ss : List Bytes) (behind : Bytes) → strings_onto ss [] ++ behind ≡ strings_onto ss behind
strings_onto-append [] behind = refl
strings_onto-append (s ∷ ss) behind =
    append_assoc (string_bytes s) (strings_onto ss []) behind
    ∙ ap (λ t. string_bytes s ++ t) (strings_onto-append ss behind)

read_identities-Reads :
    (is : List SshAgentIdentity) (behind : Bytes) (r : SshAgentMessageBufferReader)
    → length (strings_onto (strings is) []) < u32_mod
    → Rest r (strings_onto (strings is) behind)
    → Reads (Answer.read_identities (length is) r) is behind
unfolding Answer.read_identities Identity.from_buffer
read_identities-Reads [] behind r small h = (r, refl, h)
read_identities-Reads (i ∷ is) behind r small h =
    let (blob_fits, small1) = string-lt i.blob (i.comment ∷ strings is) [] small in
    let (comment_fits, small2) = string-lt i.comment (strings is) [] small1 in
    and_then-Reads (Identity.from_buffer r) _ i (i ∷ is) _ behind
      (read_string_then r i.blob _ _ i _ blob_fits h
        λ r1 h1. read_string_then r1 i.comment _ _ i _ comment_fits h1 λ r2 h2. (r2, refl, h2))
      λ r3 h3.
        and_then-Reads (Answer.read_identities (length is) r3) _ is (i ∷ is) behind behind
          (read_identities-Reads is behind r3 small2 h3) λ r4 h4. (r4, refl, h4)

-- An envelope that begins with the answer's bytes is read as the list, up to their end.
pub from_buffer-Reads :
    (is : List SshAgentIdentity) (behind : Bytes) (r : SshAgentMessageBufferReader)
    → IsSendable is
    → Rest r (answer_bytes is ++ behind)
    → Reads (Answer.from_buffer r) (record { identities = is }) behind
unfolding Answer.from_buffer
from_buffer-Reads is behind r ok h =
    let ss = strings_onto (strings is) behind in
    let split : (be32 (length is) ++ strings_onto (strings is) []) ++ behind
        ≡ be32 (length is) ++ ss =
      append_assoc (be32 (length is)) (strings_onto (strings is) []) behind
      ∙ ap (λ t. be32 (length is) ++ t) (strings_onto-append (strings is) behind) in
    and_then-Reads (read_byte r) _ ssh2_agent_identities_answer (record { identities = is }) _
      behind
      (read_byte-Reads r _ ssh2_agent_identities_answer
        (subst (λ t. Rest r (ssh2_agent_identities_answer ∷ t)) split h))
      λ r1 h1.
        and_then-Reads (read_uint32 r1) _ (length is) (record { identities = is }) ss behind
          (read_uint32-Reads r1 _ (length is) (parts is ok).0 h1)
          λ r2 h2.
            and_then-Reads (Answer.read_identities (length is) r2) _ is (record { identities = is })
              behind behind (read_identities-Reads is behind r2 (parts is ok).1 h2)
              λ r3 h3. (r3, refl, h3)

-- An answer written into an empty envelope is read back as the same list of keys, and the reader
-- ends at the end of the message, provided that its strings are bytes and it is shorter than 2 ^ 32
-- bytes.
pub from_buffer-to_buffer :
    (is : List SshAgentIdentity) (m : SshMessageEnvelope)
    → IsSendable is
    → Reads
        (Answer.from_buffer (open_reader (Answer.to_buffer (record { identities = is }) (init m))))
        (record { identities = is })
        []
unfolding init
from_buffer-to_buffer is m ok =
    let e = Answer.to_buffer (record { identities = is }) (init m) in
    from_buffer-Reads is [] (open_reader e) ok (
      subst (Rest (open_reader e))
        (ap (λ (a : SshMessageEnvelope). a.bytes) (to_buffer-init is ok m)
          ∙ sym (append-nil (answer_bytes is)))
        (open_reader-Rest e (to_buffer-IsWellFormed is ok m)))
