-- ===== src/Upstream/Pageant/Memory.antt =====
-- The exchange through the mapping.
use ssh_agent_bridge.Base.{
  ℕ, ◌+◌, ◌-◌, ◌%◌, ◌≤◌, ◌<◌, ◌≡◌, refl, sym, true, false, [], ◌∷◌, ◌++◌, append_assoc, Option,
  none, some, length, take, take-length, take-append, drop, drop-append, head?, arith, ltb,
  if◌then◌else◌,
}
use ssh_agent_bridge.Base.Faults.{◌>>=◌}
use ssh_agent_bridge.Wire.{Bytes, SshMessageEnvelope, header_size, u32_mod, size_mod}
use ssh_agent_bridge.Wire.Words.{byte_swap, length-store_le}
use ssh_agent_bridge.Wire.RoundTrip.{be32}
use ssh_agent_bridge.Upstream.{zeros}
use ssh_agent_bridge.Upstream.Exchange.{frame, host_length-be32}
use ssh_agent_bridge.Upstream.Pageant.{
  max_pageant_message_size, Window, Pageant, request_memory, read_memory, take_answer,
  exchange_in_memory,
}

pub take-header : (n : ℕ) (bs : Bytes) → take header_size (be32 n ++ bs) ≡ be32 n
take-header n bs = rw (length-store_le 4 (byte_swap 4 n)) at (take-append (be32 n) bs)

pub drop-header : (n : ℕ) (bs : Bytes) → drop header_size (be32 n ++ bs) ≡ bs
drop-header n bs = rw (length-store_le 4 (byte_swap 4 n)) at (drop-append (be32 n) bs)

-- The length at the front of the memory, and what stands behind it.
read_memory-be32 :
    (request : Bytes) (n : ℕ) (bs : Bytes)
    → n < u32_mod
    → read_memory request (be32 n ++ bs) ≡ (
        if ltb (max_pageant_message_size - header_size) n
        then none
        else (head? (take n bs) >>= λ first. some (record {
          status = true;
          message = record { length = n; bytes = take n bs };
          wire = request;
        })))
unfolding read_memory
read_memory-be32 request n bs h = rw (take-header n bs, drop-header n bs, host_length-be32 n h) refl

head?-all : (bs : Bytes) → 0 < length bs → (b : ℕ) × (head? bs ≡ some b)
head?-all [] h = absurd (omega arith)
head?-all (b ∷ bs) h = (b, refl)

-- The request's length and its bytes stand at the front of the mapping, and the agent sees nothing but
-- zeros behind them.
request_memory-frame :
    (m : SshMessageEnvelope)
    → m.length ≡ length m.bytes
    → request_memory m ≡ frame m ++ zeros (max_pageant_message_size - length (frame m))
unfolding request_memory
request_memory-frame m e = rw (take-length m.length m.bytes (omega (arith, e))) refl

-- If the request is not empty and fits in the mapping, a window was found, the mapping is made, and
-- Pageant answers with a memory that begins with the frame of a reply that is not empty and fits in
-- it, then the exchange succeeds and the message is that reply, whatever stands behind it; the memory
-- that Pageant was given is the request's frame with zeros behind it. The lengths are those of the bytes.
pub exchange_in_memory-answers :
    (w : Window) (p : Pageant) (m reply : SshMessageEnvelope) (rest : Bytes)
    → m.length ≡ length m.bytes
    → 0 < m.length
    → m.length + header_size ≤ max_pageant_message_size
    → reply.length ≡ length reply.bytes
    → 0 < reply.length
    → reply.length + header_size ≤ max_pageant_message_size
    → p.maps ≡ true
    → p.answer (frame m ++ zeros (max_pageant_message_size - length (frame m)))
      ≡ some (frame reply ++ rest)
    → exchange_in_memory (some w) p m
      ≡ some (record {
        status = true;
        message = reply;
        wire = frame m ++ zeros (max_pageant_message_size - length (frame m));
      })
unfolding exchange_in_memory take_answer
exchange_in_memory-answers w p m reply rest e_m some_m fit_m e_r some_r fit_r maps answers =
    let memory = request_memory-frame m e_m in
    let start = append_assoc (be32 reply.length) reply.bytes rest in
    let short : ltb max_pageant_message_size ((m.length + header_size) % size_mod) ≡ false =
      ground (arith, fit_m) in
    let first = head?-all m.bytes (omega (arith, some_m, e_m)) in
    let first' = head?-all reply.bytes (omega (arith, some_r, e_r)) in
    let whole : take reply.length (reply.bytes ++ rest) ≡ reply.bytes =
      rw (sym e_r) at (take-append reply.bytes rest) in
    let fits : ltb (max_pageant_message_size - header_size) reply.length ≡ false =
      ground (arith, fit_r) in
    rw
      (
        short,
        maps,
        first.1,
        memory,
        answers,
        start,
        read_memory-be32 (request_memory m) reply.length (reply.bytes ++ rest)
            (omega (arith, fit_r)),
        fits,
        whole,
        first'.1,
        memory,
      )
      refl

-- A request that does not fit in the mapping is refused before anything is done, and stays as it was.
-- Its length is one of 32 bits.
pub exchange_in_memory-refuses :
    (window : Option Window) (p : Pageant) (m : SshMessageEnvelope)
    → m.length < u32_mod
    → max_pageant_message_size < m.length + header_size
    → exchange_in_memory window p m ≡ some (record { status = false; message = m; wire = [] })
unfolding exchange_in_memory
exchange_in_memory-refuses window p m small large =
    let long : ltb max_pageant_message_size ((m.length + header_size) % size_mod) ≡ true =
      ground (arith, small, large) in
    rw long refl

-- The length of a reply is not checked: where Pageant answers with a length of more than the 8188
-- bytes that the mapping has behind it, the copy goes beyond the mapping. This is for a request that
-- is not empty and fits in the mapping.
pub exchange_in_memory-overruns :
    (w : Window) (p : Pageant) (m : SshMessageEnvelope) (n : ℕ) (rest : Bytes)
    → 0 < length m.bytes
    → m.length + header_size ≤ max_pageant_message_size
    → p.maps ≡ true
    → n < u32_mod
    → max_pageant_message_size - header_size < n
    → p.answer (request_memory m) ≡ some (be32 n ++ rest)
    → exchange_in_memory (some w) p m ≡ none
unfolding exchange_in_memory take_answer
exchange_in_memory-overruns w p m n rest some_m fit maps small large answers =
    let short : ltb max_pageant_message_size ((m.length + header_size) % size_mod) ≡ false =
      ground (arith, fit) in
    let first = head?-all m.bytes some_m in
    let over : ltb (max_pageant_message_size - header_size) n ≡ true = ground (arith, large) in
    rw (short, maps, first.1, answers, read_memory-be32 (request_memory m) n rest small, over) refl
