-- ===== src/Wire/Safety.antt =====
-- A reader on a well-formed envelope touches no memory outside the vector, as long as it is not
-- used again after a refused string; what happens then is here too.
use ssh_agent_bridge.Base.{ℕ, ◌+◌, ◌≤◌, ◌<◌, ◌≡◌, ◌≢◌, true, arith, Bool-cases, inl, inr}
use ssh_agent_bridge.Wire.{Bytes, SshMessageEnvelope, IsWellFormed, u32_mod}
use ssh_agent_bridge.Wire.Reader.{
  SshAgentMessageBufferReader, ReadResult, done, refused, fault, and_then, consume, can_consume,
  copy_bytes, read_byte, read_uint32, read_string, step_back, read_string_of,
}
use ssh_agent_bridge.Wire.Words.{load_le, byte_swap, byte_swap-lt}

-- The position is inside the envelope.
pub record IsPlaced (e : SshMessageEnvelope) (r : SshAgentMessageBufferReader) : Type 0 where
  pub same : r.envelope ≡ e
  pub inside : r.next ≤ e.length

-- The read did not fault, and left the reader inside the envelope if it succeeded.
abbrev pub IsSafe {ℓ} : {A : Type ℓ} → SshMessageEnvelope → ReadResult A → Type 0
IsSafe e (done a r) = IsPlaced e r
IsSafe e (refused r) = Unit
IsSafe e fault = ⊥

pub and_then-IsSafe {ℓ κ} :
    {A : Type ℓ} {B : Type κ} (e : SshMessageEnvelope) (m : ReadResult A)
    (f : A → SshAgentMessageBufferReader → ReadResult B)
    → IsSafe e m
    → ((a : A) (r : SshAgentMessageBufferReader) → IsPlaced e r → IsSafe e (f a r))
    → IsSafe e (and_then m f)
and_then-IsSafe e (done a r) f h k = k a r h
and_then-IsSafe e (refused r) f h k = tt
and_then-IsSafe e fault f h k = h

module _ (e : SshMessageEnvelope) (w : IsWellFormed e) (r : SshAgentMessageBufferReader)
    (p : IsPlaced e r) where
  copy_bytes-IsSafe : (n : ℕ) → n < u32_mod → can_consume n r ≡ true → IsSafe e (copy_bytes n r)
  unfolding copy_bytes can_consume
  copy_bytes-IsSafe n small h = ground (arith, w.sized, w.fits, p.same, p.inside)

  pub consume-IsSafe : (n : ℕ) → n < u32_mod → IsSafe e (consume n r)
  unfolding consume
  consume-IsSafe n small = elim (Bool-cases (can_consume n r)) [
    | inl h ↦ rw h (copy_bytes-IsSafe n small h)
    | inr h ↦ rw h tt
  ]

  pub read_byte-IsSafe : IsSafe e (read_byte r)
  unfolding read_byte
  read_byte-IsSafe =
      and_then-IsSafe e (consume 1 r) (λ bs r'. done (load_le bs) r')
        (consume-IsSafe 1 (omega arith)) (λ bs r' p'. p')

  pub read_uint32-IsSafe : IsSafe e (read_uint32 r)
  unfolding read_uint32
  read_uint32-IsSafe =
      and_then-IsSafe e (consume 4 r) (λ bs r'. done (byte_swap 4 (load_le bs)) r')
        (consume-IsSafe 4 (omega arith)) (λ bs r' p'. p')

-- A number that was read has 32 bits.
abbrev IsU32Result : ReadResult ℕ → Type 0
IsU32Result (done v r) = v < u32_mod
IsU32Result (refused r) = Unit
IsU32Result fault = Unit

read_uint32-lt : (r : SshAgentMessageBufferReader) → IsU32Result (read_uint32 r)
unfolding read_uint32
read_uint32-lt r = of_consumed (consume 4 r)
  where
    of_consumed :
        (m : ReadResult Bytes)
        → IsU32Result (and_then m λ bs r'. done (byte_swap 4 (load_le bs)) r')
    of_consumed (done bs r') = byte_swap-lt 4 (load_le bs)
    of_consumed (refused r') = tt
    of_consumed fault = tt

module _ (e : SshMessageEnvelope) (w : IsWellFormed e) where
  -- A string whose length prefix promises more than there is is refused, never a fault.
  pub read_string-IsSafe :
      (r : SshAgentMessageBufferReader) → IsPlaced e r → IsSafe e (read_string r)
  unfolding read_string read_string_of
  read_string-IsSafe r p = of_length (read_uint32 r) (read_uint32-IsSafe e w r p) (read_uint32-lt r)
    where
      of_length : (m : ReadResult ℕ) → IsSafe e m → IsU32Result m → IsSafe e (read_string_of m)
      of_length (done n r') p' small = elim (Bool-cases (can_consume n r')) [
        | inl h ↦ rw (h, read_string_of) (copy_bytes-IsSafe e w r' p' n small h)
        | inr h ↦ rw (h, read_string_of) tt
      ]
      of_length (refused r') p' small = tt
      of_length fault p' small = p'

-- A length prefix that is cut short: `read_uint32` does not advance, and the reader steps back all
-- the same, to four bytes before where it was, modulo 2 ^ 64.
pub read_string_truncated :
    (r : SshAgentMessageBufferReader)
    → r.next < u32_mod
    → r.envelope.length < r.next + 4
    → (read_string r ≡ refused (step_back r)) × ((step_back r).next ≢ r.next)
unfolding read_string read_uint32 consume can_consume
read_string_truncated r small short = (ground arith, omega arith)

-- A length prefix that is cut short, with the reader at one of the first four bytes of a
-- well-formed buffer: the string is refused, with `next` stepped back by four all the same, to just
-- below 2 ^ 64; there the bounds test wraps around and passes, and the next number is read from
-- outside the vector.
pub read_uint32_after_truncated :
    (r : SshAgentMessageBufferReader)
    → IsWellFormed r.envelope
    → r.next < 4
    → r.next ≤ r.envelope.length
    → r.envelope.length < r.next + 4
    → (read_string r ≡ refused (step_back r)) × (read_uint32 (step_back r) ≡ fault)
unfolding read_uint32 consume can_consume copy_bytes
read_uint32_after_truncated r w front placed short =
    ((read_string_truncated r (omega arith) short).0, ground (arith, w.sized))
