-- ===== src/Agent/Keys/RoundTrip.antt =====
-- Private keys are read back as they were written.
use ssh_agent_bridge.Base.{◌<◌, refl, ap, subst, List, [], ◌∷◌, length, arith}
use ssh_agent_bridge.Wire.{Bytes, SshMessageEnvelope, IsWellFormed, u32_mod}
use ssh_agent_bridge.Wire.Reader.{open_reader}
use ssh_agent_bridge.Wire.Writer.{init}
use ssh_agent_bridge.Wire.RoundTrip.{
  append-IsWellFormed, init-IsWellFormed, Rest, Reads, open_reader-Rest,
}
use ssh_agent_bridge.Agent.Strings.{
  strings_onto, write_strings, AreBytes, string-lt, write_strings-append, strings_onto-IsByte,
  read_string_then,
}
use ssh_agent_bridge.Agent.Keys.Dsa
use ssh_agent_bridge.Agent.Keys.Dsa.{SshAgentDsaKey}
use ssh_agent_bridge.Agent.Keys.Ecdsa
use ssh_agent_bridge.Agent.Keys.Ecdsa.{SshAgentEcdsaKey}
use ssh_agent_bridge.Agent.Keys.Ed25519
use ssh_agent_bridge.Agent.Keys.Ed25519.{SshAgentEd25519Key}
use ssh_agent_bridge.Agent.Keys.Rsa
use ssh_agent_bridge.Agent.Keys.Rsa.{SshAgentRsaKey}

-- The strings are bytes, and together fit in a 32-bit length.
pub record IsStorable (ss : List Bytes) : Type 0 where
  pub in_range : AreBytes ss
  pub fits : length (strings_onto ss []) < u32_mod

-- A fresh reader on the written strings has all of them before it.
written-Rest :
    (ss : List Bytes) (m : SshMessageEnvelope)
    → IsStorable ss
    → Rest (open_reader (write_strings ss (init m))) (strings_onto ss [])
unfolding init
written-Rest ss m ok =
    let e = write_strings ss (init m) in
    let same = write_strings-append ss (init m) (omega arith) ok.fits in
    let w : IsWellFormed e = rw same (
      append-IsWellFormed (strings_onto ss []) (init m) (init-IsWellFormed m)
        (strings_onto-IsByte ss ok.in_range) (omega (arith, ok.fits))) in
    subst (Rest (open_reader e)) (ap (λ (a : SshMessageEnvelope). a.bytes) same)
      (open_reader-Rest e w)

abbrev pub dsa_fields : SshAgentDsaKey → List Bytes
dsa_fields k = k.p ∷ k.q ∷ k.g ∷ k.y ∷ k.x ∷ []

dsa-Reads :
    (k : SshAgentDsaKey) (m : SshMessageEnvelope)
    → IsStorable (dsa_fields k)
    → Reads (Dsa.from_buffer (open_reader (Dsa.to_buffer k (init m)))) k []
unfolding Dsa.from_buffer Dsa.to_buffer
dsa-Reads k m ok =
    let size0 = ok.fits in
    let (fits1, size1) = string-lt k.p (k.q ∷ k.g ∷ k.y ∷ k.x ∷ []) [] size0 in
    let (fits2, size2) = string-lt k.q (k.g ∷ k.y ∷ k.x ∷ []) [] size1 in
    let (fits3, size3) = string-lt k.g (k.y ∷ k.x ∷ []) [] size2 in
    let (fits4, size4) = string-lt k.y (k.x ∷ []) [] size3 in
    let (fits5, size5) = string-lt k.x [] [] size4 in
    read_string_then _ k.p _ [] k _ fits1 (written-Rest (dsa_fields k) m ok) λ r1 h1.
      read_string_then r1 k.q _ [] k _ fits2 h1 λ r2 h2.
        read_string_then r2 k.g _ [] k _ fits3 h2 λ r3 h3.
          read_string_then r3 k.y _ [] k _ fits4 h3
            λ r4 h4. read_string_then r4 k.x _ [] k _ fits5 h4 λ r5 h5. (r5, refl, h5)

abbrev pub ecdsa_fields : SshAgentEcdsaKey → List Bytes
ecdsa_fields k = k.ecdsa_curve_name ∷ k.q ∷ k.d ∷ []

ecdsa-Reads :
    (k : SshAgentEcdsaKey) (m : SshMessageEnvelope)
    → IsStorable (ecdsa_fields k)
    → Reads (Ecdsa.from_buffer (open_reader (Ecdsa.to_buffer k (init m)))) k []
unfolding Ecdsa.from_buffer Ecdsa.to_buffer
ecdsa-Reads k m ok =
    let size0 = ok.fits in
    let (fits1, size1) = string-lt k.ecdsa_curve_name (k.q ∷ k.d ∷ []) [] size0 in
    let (fits2, size2) = string-lt k.q (k.d ∷ []) [] size1 in
    let (fits3, size3) = string-lt k.d [] [] size2 in
    read_string_then _ k.ecdsa_curve_name _ [] k _ fits1 (written-Rest (ecdsa_fields k) m ok)
      λ r1 h1.
        read_string_then r1 k.q _ [] k _ fits2 h1
          λ r2 h2. read_string_then r2 k.d _ [] k _ fits3 h2 λ r3 h3. (r3, refl, h3)

abbrev pub ed25519_fields : SshAgentEd25519Key → List Bytes
ed25519_fields k = k.enc_a ∷ k.k_enc_a ∷ []

ed25519-Reads :
    (k : SshAgentEd25519Key) (m : SshMessageEnvelope)
    → IsStorable (ed25519_fields k)
    → Reads (Ed25519.from_buffer (open_reader (Ed25519.to_buffer k (init m)))) k []
unfolding Ed25519.from_buffer Ed25519.to_buffer
ed25519-Reads k m ok =
    let size0 = ok.fits in
    let (fits1, size1) = string-lt k.enc_a (k.k_enc_a ∷ []) [] size0 in
    let (fits2, size2) = string-lt k.k_enc_a [] [] size1 in
    read_string_then _ k.enc_a _ [] k _ fits1 (written-Rest (ed25519_fields k) m ok)
      λ r1 h1. read_string_then r1 k.k_enc_a _ [] k _ fits2 h1 λ r2 h2. (r2, refl, h2)

abbrev pub rsa_fields : SshAgentRsaKey → List Bytes
rsa_fields k = k.n ∷ k.e ∷ k.d ∷ k.iqmp ∷ k.p ∷ k.q ∷ []

rsa-Reads :
    (k : SshAgentRsaKey) (m : SshMessageEnvelope)
    → IsStorable (rsa_fields k)
    → Reads (Rsa.from_buffer (open_reader (Rsa.to_buffer k (init m)))) k []
unfolding Rsa.from_buffer Rsa.to_buffer
rsa-Reads k m ok =
    let size0 = ok.fits in
    let (fits1, size1) = string-lt k.n (k.e ∷ k.d ∷ k.iqmp ∷ k.p ∷ k.q ∷ []) [] size0 in
    let (fits2, size2) = string-lt k.e (k.d ∷ k.iqmp ∷ k.p ∷ k.q ∷ []) [] size1 in
    let (fits3, size3) = string-lt k.d (k.iqmp ∷ k.p ∷ k.q ∷ []) [] size2 in
    let (fits4, size4) = string-lt k.iqmp (k.p ∷ k.q ∷ []) [] size3 in
    let (fits5, size5) = string-lt k.p (k.q ∷ []) [] size4 in
    let (fits6, size6) = string-lt k.q [] [] size5 in
    read_string_then _ k.n _ [] k _ fits1 (written-Rest (rsa_fields k) m ok) λ r1 h1.
      read_string_then r1 k.e _ [] k _ fits2 h1 λ r2 h2.
        read_string_then r2 k.d _ [] k _ fits3 h2 λ r3 h3.
          read_string_then r3 k.iqmp _ [] k _ fits4 h3 λ r4 h4.
            read_string_then r4 k.p _ [] k _ fits5 h4
              λ r5 h5. read_string_then r5 k.q _ [] k _ fits6 h5 λ r6 h6. (r6, refl, h6)

-- A private key of each of the four formats, written into an empty envelope, is read back whole, and
-- the reader ends at the end of the message, provided that its numbers are bytes and their encoding
-- is shorter than 2 ^ 32 bytes.
pub from_buffer-to_buffer_keys :
    (a : SshAgentDsaKey) (b : SshAgentEcdsaKey) (c : SshAgentEd25519Key) (d : SshAgentRsaKey)
    (m : SshMessageEnvelope)
    → IsStorable (dsa_fields a)
    → IsStorable (ecdsa_fields b)
    → IsStorable (ed25519_fields c)
    → IsStorable (rsa_fields d)
    → Reads (Dsa.from_buffer (open_reader (Dsa.to_buffer a (init m)))) a []
      × Reads (Ecdsa.from_buffer (open_reader (Ecdsa.to_buffer b (init m)))) b []
      × Reads (Ed25519.from_buffer (open_reader (Ed25519.to_buffer c (init m)))) c []
      × Reads (Rsa.from_buffer (open_reader (Rsa.to_buffer d (init m)))) d []
from_buffer-to_buffer_keys a b c d m oka okb okc okd =
    (dsa-Reads a m oka, ecdsa-Reads b m okb, ed25519-Reads c m okc, rsa-Reads d m okd)
