-- ===== src/Wire/RoundTrip.antt =====
-- What the writer writes, the reader reads back.
use ssh_agent_bridge.Base.{
  ℕ, ◌+◌, ◌%◌, ◌<◌, ◌≡◌, refl, sym, ap, ◌∙◌, [], ◌∷◌, ◌++◌, append_assoc, drop, length,
  length-append, take-append, drop-append, drop-drop, All, true, ◌≤◌, ◌*◌, All-append, arith,
  le→leb,
}
use ssh_agent_bridge.Wire.{Bytes, IsByte, SshMessageEnvelope, IsWellFormed, u32_mod, size_mod}
use ssh_agent_bridge.Wire.Words.{
  store_le, load_le, byte_swap, length-store_le, store_le-IsByte, byte_swap-byte_swap,
  load_le-store_le, byte_swap-lt,
}
use ssh_agent_bridge.Wire.Reader.{
  SshAgentMessageBufferReader, ReadResult, done, and_then, advance, consume, can_consume,
  copy_bytes, read_byte, read_uint32, read_string, open_reader,
}
use ssh_agent_bridge.Wire.Writer.{append, init, write_uint32, write_string}

-- The bytes of a number and of a string on the wire.
abbrev pub be32 : ℕ → Bytes
be32 v = store_le 4 (byte_swap 4 v)

abbrev pub string_bytes : Bytes → Bytes
string_bytes s = be32 (length s) ++ s

pub append-append :
    (a b : Bytes) (e : SshMessageEnvelope) → append b (append a e) ≡ append (a ++ b) e
append-append a b e = λ i. record { length = size i; bytes = append_assoc e.bytes a b i }
  where
    size :
        ((e.length + length a) % u32_mod + length b) % u32_mod
        ≡ (e.length + length (a ++ b)) % u32_mod
    size = omega (arith, length-append a b)

pub write_string-append :
    (s : Bytes) (e : SshMessageEnvelope)
    → length s < u32_mod
    → write_string s e ≡ append (string_bytes s) e
unfolding write_string write_uint32
write_string-append s e h =
    let small : length s % u32_mod ≡ length s = omega arith in
    rw small (append-append (be32 (length s)) s e)

pub append-IsWellFormed :
    (bs : Bytes) (e : SshMessageEnvelope)
    → IsWellFormed e
    → All IsByte bs
    → length e.bytes + length bs < u32_mod
    → IsWellFormed (append bs e)
append-IsWellFormed bs e w b h = record {
  sized = omega (arith, w.sized, length-append e.bytes bs);
  fits = omega arith;
  in_range = All-append IsByte e.bytes bs w.in_range b;
}

pub init-IsWellFormed : (e : SshMessageEnvelope) → IsWellFormed (init e)
unfolding init
init-IsWellFormed e = record { sized = refl; fits = omega arith; in_range = tt }

pub string_bytes-IsByte : (s : Bytes) → All IsByte s → All IsByte (string_bytes s)
string_bytes-IsByte s h = All-append IsByte (be32 (length s)) s (store_le-IsByte 4 _) h

pub length-string_bytes : (s : Bytes) → length (string_bytes s) ≡ 4 + length s
length-string_bytes s =
    omega (arith, length-append (be32 (length s)) s, length-store_le 4 (byte_swap 4 (length s)))

-- `rest` is what the reader has not read.
pub record Rest (r : SshAgentMessageBufferReader) (rest : Bytes) : Type 0 where
  pub well_formed : IsWellFormed r.envelope
  pub at : drop r.next r.envelope.bytes ≡ rest
  pub size : r.next + length rest ≡ length r.envelope.bytes

pub open_reader-Rest : (e : SshMessageEnvelope) → IsWellFormed e → Rest (open_reader e) e.bytes
unfolding open_reader
open_reader-Rest e w = record { well_formed = w; at = refl; size = omega arith }

-- The read succeeds with `v` and leaves `rest`.
abbrev pub Reads {ℓ} : {A : Type ℓ} → ReadResult A → A → Bytes → Type ℓ
Reads m v rest = (r : SshAgentMessageBufferReader) × (m ≡ done v r) × Rest r rest

pub and_then-Reads {ℓ κ} :
    {A : Type ℓ} {B : Type κ} (m : ReadResult A)
    (f : A → SshAgentMessageBufferReader → ReadResult B) (a : A) (b : B) (rest rest' : Bytes)
    → Reads m a rest
    → ((r : SshAgentMessageBufferReader) → Rest r rest → Reads (f a r) b rest')
    → Reads (and_then m f) b rest'
and_then-Reads m f a b rest rest' (r, e, at) k =
    let (r', e', at') = k r at in (r', rw (e, and_then) e', at')

module _ (r : SshAgentMessageBufferReader) (bs rest : Bytes) (h : Rest r (bs ++ rest)) where
  room : r.next + length bs + length rest ≡ length r.envelope.bytes
  room = omega (arith, h.size, length-append bs rest)

  advance-Rest : Rest (advance (length bs) r) rest
  advance-Rest =
      let small : (r.next + length bs) % size_mod ≡ r.next + length bs =
        omega (arith, room, h.well_formed.sized, h.well_formed.fits) in
      record {
        well_formed = h.well_formed;
        at = rw small (
            sym (drop-drop r.next (length bs) r.envelope.bytes)
            ∙ ap (drop (length bs)) h.at
            ∙ drop-append bs rest);
        size = omega (arith, small, room);
      }

  pub copy_bytes-Reads : Reads (copy_bytes (length bs) r) bs rest
  unfolding copy_bytes
  copy_bytes-Reads =
      (advance (length bs) r, rw (le→leb _ _ fits, h.at, take-append bs rest), advance-Rest)
    where
      fits : r.next + length bs ≤ length r.envelope.bytes
      fits = omega (arith, room)

  pub can_consume-Rest : can_consume (length bs) r ≡ true
  unfolding can_consume
  can_consume-Rest = le→leb _ _ (omega (arith, room, h.well_formed.sized, h.well_formed.fits))

  pub consume-Reads : Reads (consume (length bs) r) bs rest
  unfolding consume
  consume-Reads = rw can_consume-Rest copy_bytes-Reads

module _ (r : SshAgentMessageBufferReader) (rest : Bytes) where
  pub read_byte-Reads : (b : ℕ) → Rest r (b ∷ rest) → Reads (read_byte r) b rest
  unfolding read_byte load_le
  read_byte-Reads b h =
      and_then-Reads (consume 1 r) (λ bs r'. done (load_le bs) r') (b ∷ []) b rest rest
        (consume-Reads r (b ∷ []) rest h)
        λ r' at. (r', ap (λ k. done k r') (let e : b + 256 * 0 ≡ b = omega arith in e), at)

  pub read_uint32-Reads :
      (v : ℕ) → v < u32_mod → Rest r (be32 v ++ rest) → Reads (read_uint32 r) v rest
  unfolding read_uint32
  read_uint32-Reads v small h =
      and_then-Reads (consume 4 r) (λ bs r'. done (byte_swap 4 (load_le bs)) r') (be32 v) v rest
        rest (rw (length-store_le 4 (byte_swap 4 v)) at (consume-Reads r (be32 v) rest h))
        λ r' at. (
          r',
          ap (λ k. done (byte_swap 4 k) r') (load_le-store_le 4 (byte_swap 4 v) (byte_swap-lt 4 v))
              ∙ ap (λ k. done k r') (byte_swap-byte_swap 4 v small),
          at,
        )

pub read_string-Reads :
    (r : SshAgentMessageBufferReader) (s rest : Bytes)
    → length s < u32_mod
    → Rest r (string_bytes s ++ rest)
    → Reads (read_string r) s rest
unfolding read_string
read_string-Reads r s rest small h =
    let h' : Rest r (be32 (length s) ++ (s ++ rest)) = rw append_assoc at h in
    let (r', e, at) = read_uint32-Reads r (s ++ rest) (length s) small h' in
    rw (e, can_consume-Rest r' s rest at) (copy_bytes-Reads r' s rest at)
