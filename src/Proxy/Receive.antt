-- ===== src/Proxy/Receive.antt =====
-- Reading a request: behind a header that comes in one read, however the system cuts the body, the message
-- handed on is the one sent.
use ssh_agent_bridge.Base.{
  ℕ, ◌-◌, ◌≤◌, ◌<◌, ◌≡◌, refl, ap, ◌∙◌, true, false, List, [], ◌∷◌, ◌++◌, append_assoc, append-nil,
  some, ◌==◌, if◌then◌else◌, length, length-append, take, take-append, drop, head?, min, All, arith,
}
use ssh_agent_bridge.Wire.{Bytes, max_message_size, header_size}
use ssh_agent_bridge.Wire.Words.{
  load_le, byte_swap, length-store_le, load_le-store_le, byte_swap-lt, byte_swap-byte_swap,
}
use ssh_agent_bridge.Wire.RoundTrip.{be32}
use ssh_agent_bridge.Proxy.{
  ready, read_header, read_body, wait_reply, Effect, reads, receives, ProxyIoContext, Step,
  Handshaken, do_io_completion, do_io_completion_at, deliver, max_buffer_size, sub_int,
}

abbrev pub concat : List Bytes → Bytes
concat [] = []
concat (c ∷ cs) = c ++ concat cs

-- A completed read has at least a byte, and at most what the buffer holds.
abbrev pub IsChunk : Bytes → Type 0
IsChunk c = (0 < length c) × (length c ≤ max_buffer_size)

-- The reads that follow, with `need` bytes missing, as the pieces come in.
abbrev pub further_reads : ℕ → List Bytes → List Effect
further_reads need [] = []
further_reads need (c ∷ cs) =
    let rest = need - length c in
    if rest == 0 then [] else reads (min max_buffer_size rest) ∷ further_reads rest cs

-- The message `length`, `bytes` was handed on after the reads `asked`, and the connection waits for
-- the reply to it.
pub record Received (s : Step) (size : ℕ) (bytes : Bytes) (asked : List Effect) : Type 0 where
  pub waits : s.context.state ≡ wait_reply
  pub message_is : s.context.message ≡ record { length = size; bytes = bytes }
  pub effects_are : s.effects ≡ asked ++ receives (record { length = size; bytes = bytes }) ∷ []

-- Bytes that end in a piece have a first byte.
head?-append : (xs p : Bytes) → 0 < length p → (b : ℕ) × (head? (xs ++ p) ≡ some b)
head?-append [] [] h = absurd (omega arith)
head?-append [] (b ∷ p) h = (b, refl)
head?-append (x ∷ xs) p h = (x, refl)

-- The length is read from the header as it was written.
length_of_header :
    (n : ℕ) (rest : Bytes)
    → n ≤ max_message_size
    → byte_swap 4 (load_le (take header_size (be32 n ++ rest))) ≡ n
length_of_header n rest small =
    let cut : take header_size (be32 n ++ rest) ≡ be32 n =
      rw (length-store_le 4 (byte_swap 4 n)) at (take-append (be32 n) rest) in
    rw (cut, load_le-store_le 4 (byte_swap 4 n) (byte_swap-lt 4 n))
      (byte_swap-byte_swap 4 n (omega arith))

module _ (do_handshake : ProxyIoContext → ℕ → Handshaken) where
  -- The connection's steps as the pieces are delivered, one completion each.
  abbrev pub run_reads : List Bytes → ProxyIoContext → Step
  run_reads [] c = record { context = c; effects = [] }
  run_reads (p ∷ ps) c =
      let s = do_io_completion do_handshake true (length p) (deliver p c) in
      let t = run_reads ps s.context in
      record { context = t.context; effects = s.effects ++ t.effects }

  -- The context after the piece `p` of the body.
  abbrev grown : Bytes → ProxyIoContext → ProxyIoContext
  grown p c = record (deliver p c) {
    io_need_bytes = c.io_need_bytes - length p;
    message = record { length = c.message.length; bytes = c.message.bytes ++ p };
  }

  module _ (p : Bytes) (c : ProxyIoContext) (body : c.state ≡ read_body)
      (need : c.io_need_bytes ≤ max_message_size) (piece : IsChunk p) where
    whole : take (length p) (p ++ drop (length p) c.io_buffer) ≡ p
    whole = take-append p (drop (length p) c.io_buffer)

    more_body :
        length p < c.io_need_bytes
        → do_io_completion do_handshake true (length p) (deliver p c) ≡ record {
          context = grown p c;
          effects = reads (min max_buffer_size (c.io_need_bytes - length p)) ∷ [];
        }
    unfolding do_io_completion
    more_body h =
        let left : sub_int c.io_need_bytes (length p) ≡ c.io_need_bytes - length p = omega arith in
        ground (arith, left, whole)

    last_body :
        length p ≡ c.io_need_bytes
        → do_io_completion do_handshake true (length p) (deliver p c) ≡ record {
          context = record (grown p c) { state = wait_reply };
          effects = receives (grown p c).message ∷ [];
        }
    unfolding do_io_completion
    last_body h =
        let left : sub_int c.io_need_bytes (length p) ≡ c.io_need_bytes - length p = omega arith in
        ground (arith, left, whole, head?-append c.message.bytes p piece.0)

  -- The rest of a body, from any point in it.
  run_reads-body :
      (ps : List Bytes) (c : ProxyIoContext)
      → c.state ≡ read_body
      → c.io_need_bytes ≤ max_message_size
      → 0 < c.io_need_bytes
      → length (concat ps) ≡ c.io_need_bytes
      → All IsChunk ps
      → Received
          (run_reads ps c)
          c.message.length
          (c.message.bytes ++ concat ps)
          (further_reads c.io_need_bytes ps)
  run_reads-body [] c body need left sum pieces = absurd (omega arith)
  run_reads-body (p ∷ []) c body need left sum pieces =
      let whole_body : length p ≡ c.io_need_bytes = omega (arith, sum, length-append p []) in
      let over : (c.io_need_bytes - length p == 0) ≡ true = ground arith in
      rw (last_body p c body need pieces.0 whole_body, over, append-nil p)
        (record { waits = refl; message_is = refl; effects_are = refl })
  run_reads-body (p ∷ q ∷ ps) c body need left sum pieces =
      let parts = length-append p (concat (q ∷ ps)) in
      let tail = length-append q (concat ps) in
      let fewer : length p < c.io_need_bytes = omega (arith, sum, parts, tail, pieces.1.0.0) in
      let over : (c.io_need_bytes - length p == 0) ≡ false = ground arith in
      let ih =
        run_reads-body (q ∷ ps) (grown p c) body (omega arith) (omega arith)
          (omega (arith, sum, parts)) pieces.1 in
      rw (more_body p c body need pieces.0 fewer, over)
        (record {
          waits = ih.waits;
          message_is =
              ih.message_is
              ∙ ap (λ bs. record { length = c.message.length; bytes = bs })
                  (append_assoc c.message.bytes p (concat (q ∷ ps)));
          effects_are = ap (◌∷◌ (reads (min max_buffer_size (c.io_need_bytes - length p)))) (
              ih.effects_are
              ∙ ap
                  (λ bs.
                    further_reads (c.io_need_bytes - length p) (q ∷ ps)
                    ++ receives (record { length = c.message.length; bytes = bs }) ∷ [])
                  (append_assoc c.message.bytes p (concat (q ∷ ps))));
        })

  -- The header is read, and the body is asked for.
  pub read_header_lem :
      (n : ℕ) (c : ProxyIoContext)
      → c.state ≡ read_header
      → c.io_need_bytes ≡ header_size
      → n ≤ max_message_size
      → do_io_completion do_handshake true (length (be32 n)) (deliver (be32 n) c) ≡ record {
        context = record (deliver (be32 n) c) {
          state = read_body;
          io_need_bytes = n;
          message = record { length = n; bytes = c.message.bytes };
        };
        effects = reads (min max_buffer_size n) ∷ [];
      }
  unfolding do_io_completion
  read_header_lem n c head need small =
      let left : sub_int c.io_need_bytes (length (be32 n)) ≡ 0 =
        omega (arith, length-store_le 4 (byte_swap 4 n)) in
      ground (arith, left, length_of_header n (drop (length (be32 n)) c.io_buffer) small)

  abbrev asking : ProxyIoContext → ProxyIoContext
  asking c = record c {
    state = read_header;
    io_need_bytes = header_size;
    message = record { length = c.message.length; bytes = [] };
  }

  ready_lem :
      (c : ProxyIoContext)
      → c.state ≡ ready
      → do_io_completion do_handshake true 0 c
        ≡ record { context = asking c; effects = reads header_size ∷ [] }
  unfolding do_io_completion
  ready_lem c e = rw (e, do_io_completion_at)

  -- One more read in front.
  with_request :
      (n : ℕ) (ps : List Bytes) (c : ProxyIoContext)
      → Received (run_reads ps c) n (concat ps) (further_reads n ps)
      → Received
          (record {
            context = (run_reads ps c).context;
            effects = reads (min max_buffer_size n) ∷ (run_reads ps c).effects;
          })
          n
          (concat ps)
          (reads (min max_buffer_size n) ∷ further_reads n ps)
  with_request n ps c r = record {
    waits = r.waits;
    message_is = r.message_is;
    effects_are = ap (◌∷◌ (reads (min max_buffer_size n))) r.effects_are;
  }

  -- A connection that is ready for a request asks for the header. If this comes in one
  -- read, and however the system cuts the client's bytes after it into pieces, as long as each piece has a byte and fits in the
  -- buffer: a message of 1 to 256 * 1024 bytes is handed on whole, once, after the reads that it takes, and the
  -- connection then waits for the reply.
  pub run_reads-message :
      (ps : List Bytes) (c : ProxyIoContext)
      → c.state ≡ ready
      → All IsChunk ps
      → 0 < length (concat ps)
      → length (concat ps) ≤ max_message_size
      → let n = length (concat ps) in
        let asked = do_io_completion do_handshake true 0 c in
        (asked.effects ≡ reads header_size ∷ [])
        × Received
            (run_reads (be32 n ∷ ps) asked.context)
            n
            (concat ps)
            (reads (min max_buffer_size n) ∷ further_reads n ps)
  run_reads-message ps c state_is pieces some_bytes small =
      let n = length (concat ps) in
      let c0 = asking c in
      let c1 : ProxyIoContext = record (deliver (be32 n) c0) {
        state = read_body;
        io_need_bytes = n;
        message = record { length = n; bytes = [] };
      } in
      rw (ready_lem c state_is, read_header_lem n c0 refl refl small)
        (refl, with_request n ps c1 (run_reads-body ps c1 refl small some_bytes refl pieces))
