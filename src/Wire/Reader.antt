-- ===== src/Wire/Reader.antt =====
-- `SshAgentMessageBufferReader`. A read either succeeds with a value, or is refused (the source
-- returns false), or is a fault: it would touch memory outside the vector. The reader's position is
-- in every result, because the source changes `next` on a refusal too.
use ssh_agent_bridge.Base.{
  ℕ, ◌+◌, ◌-◌, ◌%◌, Bool, not, take, drop, length, leb, ◌==◌, if◌then◌else◌,
}
use ssh_agent_bridge.Wire.{Bytes, SshMessageEnvelope, size_mod}
use ssh_agent_bridge.Wire.Words.{load_le, byte_swap}

pub record SshAgentMessageBufferReader : Type 0 where
  pub envelope : SshMessageEnvelope
  pub next : ℕ

pub data ReadResult {ℓ} (A : Type ℓ) : Type ℓ where
  done : A → SshAgentMessageBufferReader → ReadResult A
  refused : SshAgentMessageBufferReader → ReadResult A
  fault : ReadResult A

-- `a && b` on reads: the second is made only if the first succeeds.
abbrev pub and_then {ℓ κ} :
    {A : Type ℓ} {B : Type κ}
    → ReadResult A
    → (A → SshAgentMessageBufferReader → ReadResult B)
    → ReadResult B
and_then (done a r) f = f a r
and_then (refused r) f = refused r
and_then fault f = fault

unfoldable pub open_reader : SshMessageEnvelope → SshAgentMessageBufferReader
open_reader e = record { envelope = e; next = 0 }

abbrev pub advance : ℕ → SshAgentMessageBufferReader → SshAgentMessageBufferReader
advance n r = record r { next = (r.next + n) % size_mod }

unfoldable pub can_consume : ℕ → SshAgentMessageBufferReader → Bool
can_consume n r = leb ((r.next + n) % size_mod) r.envelope.length

pub reset : SshAgentMessageBufferReader → SshAgentMessageBufferReader
reset r = record r { next = 0 }

-- The `n` bytes at `next`, which must lie in the vector.
unfoldable pub copy_bytes : ℕ → SshAgentMessageBufferReader → ReadResult Bytes
copy_bytes n r =
    if leb (r.next + n) (length r.envelope.bytes)
    then done (take n (drop r.next r.envelope.bytes)) (advance n r)
    else fault

-- The guard and the copy that every read begins with.
unfoldable pub consume : ℕ → SshAgentMessageBufferReader → ReadResult Bytes
unfolding can_consume copy_bytes
consume n r = if can_consume n r then copy_bytes n r else refused r

unfoldable pub read_byte : SshAgentMessageBufferReader → ReadResult ℕ
read_byte r = and_then (consume 1 r) λ bs r'. done (load_le bs) r'

pub read_boolean : SshAgentMessageBufferReader → ReadResult Bool
read_boolean r = and_then (consume 1 r) λ bs r'. done (not (load_le bs == 0)) r'

unfoldable pub read_uint32 : SshAgentMessageBufferReader → ReadResult ℕ
read_uint32 r = and_then (consume 4 r) λ bs r'. done (byte_swap 4 (load_le bs)) r'

pub read_uint64 : SshAgentMessageBufferReader → ReadResult ℕ
read_uint64 r = and_then (consume 8 r) λ bs r'. done (byte_swap 8 (load_le bs)) r'

-- `next -= sizeof(uint32_t)`
abbrev pub step_back : SshAgentMessageBufferReader → SshAgentMessageBufferReader
step_back r = record r { next = (r.next + size_mod - 4) % size_mod }

-- On a refusal the source steps back by four bytes, whether or not the length was read.
read_body : ℕ → SshAgentMessageBufferReader → ReadResult Bytes
read_body n r = if can_consume n r then copy_bytes n r else refused (step_back r)

unfoldable pub read_string_of : ReadResult ℕ → ReadResult Bytes
unfolding read_body
read_string_of (done n r) = read_body n r
read_string_of (refused r) = refused (step_back r)
read_string_of fault = fault

unfoldable pub read_string : SshAgentMessageBufferReader → ReadResult Bytes
unfolding read_string_of
read_string r = read_string_of (read_uint32 r)
