-- ===== src/Agent/Safety.antt =====
-- Whatever bytes an upstream agent sends back, reading them as a list of identities touches no
-- memory outside the message.
use ssh_agent_bridge.Base.{ℕ, zero, suc, Bool-cases, inl, inr, ◌==◌, refl, arith}
use ssh_agent_bridge.Wire.{SshMessageEnvelope, IsWellFormed}
use ssh_agent_bridge.Wire.Reader.{
  SshAgentMessageBufferReader, read_byte, read_uint32, read_string, open_reader,
}
use ssh_agent_bridge.Wire.Safety.{
  IsPlaced, IsSafe, and_then-IsSafe, read_byte-IsSafe, read_uint32-IsSafe, read_string-IsSafe,
}
use ssh_agent_bridge.Agent.{ssh2_agent_identities_answer}
use ssh_agent_bridge.Agent.Identity
use ssh_agent_bridge.Agent.Answer

module _ (e : SshMessageEnvelope) (w : IsWellFormed e) where
  identity-IsSafe :
      (r : SshAgentMessageBufferReader) → IsPlaced e r → IsSafe e (Identity.from_buffer r)
  unfolding Identity.from_buffer
  identity-IsSafe r p =
      and_then-IsSafe e (read_string r) _ (read_string-IsSafe e w r p) λ blob r1 p1.
        and_then-IsSafe e (read_string r1) _ (read_string-IsSafe e w r1 p1) λ comment r2 p2. p2

  read_identities-IsSafe :
      (count : ℕ) (r : SshAgentMessageBufferReader)
      → IsPlaced e r
      → IsSafe e (Answer.read_identities count r)
  unfolding Answer.read_identities
  read_identities-IsSafe zero r p = p
  read_identities-IsSafe (suc count) r p =
      and_then-IsSafe e (Identity.from_buffer r) _ (identity-IsSafe r p) λ i r1 p1.
        and_then-IsSafe e (Answer.read_identities count r1) _ (read_identities-IsSafe count r1 p1)
          λ is r2 p2. p2

  read_counted-IsSafe :
      (r : SshAgentMessageBufferReader) → IsPlaced e r → IsSafe e (Answer.read_counted r)
  unfolding Answer.read_counted
  read_counted-IsSafe r p =
      and_then-IsSafe e (read_uint32 r) _ (read_uint32-IsSafe e w r p) λ count r1 p1.
        and_then-IsSafe e (Answer.read_identities count r1) _ (read_identities-IsSafe count r1 p1)
          λ is r2 p2. p2

  -- Reading any well-formed message as an identities answer never leaves the message's bytes: the
  -- read succeeds with the reader still inside, or it is refused.
  pub from_buffer-IsSafe : IsSafe e (Answer.from_buffer (open_reader e))
  unfolding Answer.from_buffer open_reader
  from_buffer-IsSafe =
      and_then-IsSafe e (read_byte (open_reader e)) _ (read_byte-IsSafe e w (open_reader e) placed)
        λ id r1 p1. elim (Bool-cases (id == ssh2_agent_identities_answer)) [
          | inl h ↦ rw h (read_counted-IsSafe r1 p1)
          | inr h ↦ rw h tt
        ]
    where
      placed : IsPlaced e (open_reader e)
      placed = record { same = refl; inside = omega arith }
