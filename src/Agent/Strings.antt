-- ===== src/Agent/Strings.antt =====
-- Rows of strings on the wire: what every format here is made of.
use ssh_agent_bridge.Base.{
  ◌+◌, ◌%◌, ◌<◌, ◌≡◌, sym, ap, ◌∙◌, List, [], ◌∷◌, ◌++◌, append-nil, length, length-append, All,
  All-append, arith,
}
use ssh_agent_bridge.Wire.{Bytes, IsByte, SshMessageEnvelope, u32_mod}
use ssh_agent_bridge.Wire.Reader.{SshAgentMessageBufferReader, ReadResult, and_then, read_string}
use ssh_agent_bridge.Wire.Writer.{append, write_string}
use ssh_agent_bridge.Wire.RoundTrip.{
  string_bytes, string_bytes-IsByte, length-string_bytes, append-append, write_string-append, Rest,
  Reads, read_string-Reads, and_then-Reads,
}

-- The strings `ss` with `rest` behind them.
abbrev pub strings_onto : List Bytes → Bytes → Bytes
strings_onto [] rest = rest
strings_onto (s ∷ ss) rest = string_bytes s ++ strings_onto ss rest

abbrev pub write_strings : List Bytes → SshMessageEnvelope → SshMessageEnvelope
write_strings [] e = e
write_strings (s ∷ ss) e = write_strings ss (write_string s e)

abbrev pub AreBytes : List Bytes → Type 0
AreBytes = All (All IsByte)

-- Each string of a row is shorter than the row.
pub string-lt :
    (s : Bytes) (ss : List Bytes) (rest : Bytes)
    → length (strings_onto (s ∷ ss) rest) < u32_mod
    → (length s < u32_mod) × (length (strings_onto ss rest) < u32_mod)
string-lt s ss rest h =
    let sum = length-append (string_bytes s) (strings_onto ss rest) in
    (omega (arith, sum, length-string_bytes s), omega (arith, sum))

pub append-nil_lem : (e : SshMessageEnvelope) → e.length < u32_mod → append [] e ≡ e
append-nil_lem e h = λ i. record { length = size i; bytes = append-nil e.bytes i }
  where
    size : (e.length + 0) % u32_mod ≡ e.length
    size = omega arith

pub write_strings-append :
    (ss : List Bytes) (e : SshMessageEnvelope)
    → e.length < u32_mod
    → length (strings_onto ss []) < u32_mod
    → write_strings ss e ≡ append (strings_onto ss []) e
write_strings-append [] e h total = sym (append-nil_lem e h)
write_strings-append (s ∷ ss) e h total =
    let (small, rest) = string-lt s ss [] total in
    ap (write_strings ss) (write_string-append s e small)
    ∙ write_strings-append ss (append (string_bytes s) e) (omega arith) rest
    ∙ append-append (string_bytes s) (strings_onto ss []) e

pub strings_onto-IsByte : (ss : List Bytes) → AreBytes ss → All IsByte (strings_onto ss [])
strings_onto-IsByte [] h = tt
strings_onto-IsByte (s ∷ ss) h =
    All-append IsByte (string_bytes s) (strings_onto ss []) (string_bytes-IsByte s h.0)
      (strings_onto-IsByte ss h.1)

-- One string read, and the reads behind it.
pub read_string_then :
    {B : Type 0} (r : SshAgentMessageBufferReader) (s rest rest' : Bytes) (b : B)
    (f : Bytes → SshAgentMessageBufferReader → ReadResult B)
    → length s < u32_mod
    → Rest r (string_bytes s ++ rest)
    → ((r' : SshAgentMessageBufferReader) → Rest r' rest → Reads (f s r') b rest')
    → Reads (and_then (read_string r) f) b rest'
read_string_then r s rest rest' b f small h k =
    and_then-Reads (read_string r) f s b rest rest' (read_string-Reads r s rest small h) k
