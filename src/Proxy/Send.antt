-- ===== src/Proxy/Send.antt =====
-- Writing a reply: its length and its bytes go out once, in order, in writes that fit the buffer.
use ssh_agent_bridge.Base.{
  ℕ, zero, suc, ◌+◌, ◌-◌, ◌%◌, ◌*◌, ◌≤◌, ◌<◌, ◌≡◌, refl, sym, ap, ◌∙◌, true, List, [], ◌∷◌, ◌++◌,
  append_assoc, some, length, length-append, length-take, length-drop, take, take-append-drop, drop,
  drop-drop, drop-length, head?, min, All, arith, ◌⊎◌, inl, inr,
}
use ssh_agent_bridge.Wire.{Bytes, u32_mod, header_size}
use ssh_agent_bridge.Wire.Words.{byte_swap, length-store_le}
use ssh_agent_bridge.Wire.RoundTrip.{be32}
use ssh_agent_bridge.Proxy.{
  State, read_header, wait_reply, write_reply, Effect, reads, writes, ProxyIoContext, Step,
  Handshaken, do_io_completion, max_buffer_size, sub_int,
}

-- What the writes among the effects put on the wire.
abbrev pub written : List Effect → Bytes
written [] = []
written (writes bs ∷ es) = bs ++ written es
written (_ ∷ es) = written es

-- No write is larger than the buffer.
abbrev pub IsBounded : Effect → Type 0
IsBounded (writes bs) = length bs ≤ max_buffer_size
IsBounded _ = Unit

head?-some : (xs : Bytes) → 0 < length xs → (b : ℕ) × (head? xs ≡ some b)
head?-some [] h = absurd (omega arith)
head?-some (x ∷ xs) h = (x, refl)

cut : (n off : ℕ) → off ≤ n → (off ≡ n) ⊎ (off < n)
cut n off h = grind arith

module _ (do_handshake : ProxyIoContext → ℕ → Handshaken) where
  -- The next step, if a write is under way: the system has written all that it was given.
  run_writes_at : State → (ProxyIoContext → Step) → ProxyIoContext → Step
  run_writes_at write_reply next c =
      let s = do_io_completion do_handshake true (length c.io_buffer) c in
      let t = next s.context in record { context = t.context; effects = s.effects ++ t.effects }
  run_writes_at _ next c = record { context = c; effects = [] }

  -- At most so many completed writes.
  pub run_writes : ℕ → ProxyIoContext → Step
  unfolding run_writes_at
  run_writes zero c = record { context = c; effects = [] }
  run_writes (suc k) c = let next = run_writes k in run_writes_at c.state next c

  -- The reply has gone out from `rest` on, and the next header is asked for.
  pub record Sends (s : Step) (rest : Bytes) : Type 0 where
    pub asks : s.context.state ≡ read_header
    pub sent : written s.effects ≡ rest
    pub bounded : All IsBounded s.effects

  module _ (c : ProxyIoContext) (writing : c.state ≡ write_reply) where
    last_write :
        c.io_data_offset ≡ length c.message.bytes
        → c.io_need_bytes ≡ length c.io_buffer
        → length c.io_buffer ≤ max_buffer_size
        → (d : ProxyIoContext) × (do_io_completion do_handshake true (length c.io_buffer) c
            ≡ record { context = d; effects = reads header_size ∷ [] })
          × (d.state ≡ read_header)
    unfolding do_io_completion
    last_write all need small =
        let over : sub_int c.io_need_bytes (length c.io_buffer) ≡ 0 = omega arith in
        (
          record c {
            state = read_header;
            io_need_bytes = header_size;
            message = record { length = c.message.length; bytes = [] };
          },
          ground (arith, over),
          refl,
        )

    next_write :
        c.io_data_offset < length c.message.bytes
        → length c.message.bytes < 2 * 1024 * 1024 * 1024 - 4
        → c.io_need_bytes ≡ length c.io_buffer + (length c.message.bytes - c.io_data_offset)
        → length c.io_buffer ≤ max_buffer_size
        → let count = min max_buffer_size (length c.message.bytes - c.io_data_offset) in
          let buffer = take count (drop c.io_data_offset c.message.bytes) in
          do_io_completion do_handshake true (length c.io_buffer) c ≡ record {
            context = record c {
              io_need_bytes = length c.message.bytes - c.io_data_offset;
              io_data_offset = c.io_data_offset + count;
              io_buffer = buffer;
            };
            effects = writes buffer ∷ [];
          }
    unfolding do_io_completion
    next_write more fits need small =
        let over : sub_int c.io_need_bytes (length c.io_buffer)
            ≡ length c.message.bytes - c.io_data_offset =
          omega arith in
        ground (arith, over)

  run_writes-step :
      (k : ℕ) (c d : ProxyIoContext) (es : List Effect)
      → c.state ≡ write_reply
      → do_io_completion do_handshake true (length c.io_buffer) c
        ≡ record { context = d; effects = es }
      → run_writes (suc k) c
        ≡ record { context = (run_writes k d).context; effects = es ++ (run_writes k d).effects }
  unfolding run_writes
  run_writes-step k c d es writing step =
      ap (λ s. run_writes_at s (run_writes k) c) writing
      ∙ ap
          (λ (s : Step).
            let t = run_writes k s.context in
            record { context = t.context; effects = s.effects ++ t.effects })
          step

  run_writes-done :
      (k : ℕ) (d : ProxyIoContext)
      → d.state ≡ read_header
      → run_writes k d ≡ record { context = d; effects = [] }
  unfolding run_writes
  run_writes-done zero d e = refl
  run_writes-done (suc k) d e = ap (λ s. run_writes_at s (run_writes k) d) e

  -- From any completed write on: what is behind the offset goes out.
  run_writes-rest :
      (k : ℕ) (c : ProxyIoContext)
      → c.state ≡ write_reply
      → c.io_data_offset ≤ length c.message.bytes
      → length c.message.bytes < 2 * 1024 * 1024 * 1024 - 4
      → c.io_need_bytes ≡ length c.io_buffer + (length c.message.bytes - c.io_data_offset)
      → length c.io_buffer ≤ max_buffer_size
      → length c.message.bytes - c.io_data_offset < k
      → Sends (run_writes k c) (drop c.io_data_offset c.message.bytes)
  run_writes-rest zero c writing inside fits need small enough = absurd (omega arith)
  run_writes-rest (suc k) c writing inside fits need small enough =
      elim (cut (length c.message.bytes) c.io_data_offset inside) [
        | inl over ↦
            let (d, step, asks) = last_write c writing over (omega arith) small in
            rw (run_writes-step k c d _ writing step, run_writes-done k d asks)
              (record {
                asks = asks;
                sent = sym (drop-length c.io_data_offset c.message.bytes (omega arith));
                bounded = (tt, tt);
              })
        | inr more ↦
            let count = min max_buffer_size (length c.message.bytes - c.io_data_offset) in
            let step = next_write c writing more fits need small in
            let rest = drop c.io_data_offset c.message.bytes in
            let size : length (take count rest) ≡ count =
              omega (arith, length-take count rest, length-drop c.io_data_offset c.message.bytes) in
            let d : ProxyIoContext = record c {
              io_need_bytes = length c.message.bytes - c.io_data_offset;
              io_data_offset = c.io_data_offset + count;
              io_buffer = take count rest;
            } in
            let ih =
              run_writes-rest k d writing (omega arith) fits (omega (arith, size))
                (omega (arith, size)) (omega arith) in
            rw (run_writes-step k c d _ writing step) (record {
              asks = ih.asks;
              sent =
                  ap (◌++◌ (take count rest))
                    (ih.sent ∙ sym (drop-drop c.io_data_offset count c.message.bytes))
                  ∙ take-append-drop count rest;
              bounded = (omega (arith, size), ih.bounded);
            })
      ]

  -- How much of the reply goes out behind the length in the first write.
  abbrev first_part : ProxyIoContext → ℕ
  first_part c = min max_buffer_size (length c.message.bytes + header_size) - header_size

  abbrev writing_first : ProxyIoContext → ProxyIoContext
  writing_first c = record c {
    state = write_reply;
    io_buffer_offset = header_size;
    io_need_bytes = length c.message.bytes + header_size;
    io_data_offset = first_part c;
    io_buffer = be32 c.message.length ++ take (first_part c) c.message.bytes;
  }

  first_write :
      (c : ProxyIoContext)
      → c.state ≡ wait_reply
      → 0 < length c.message.bytes
      → length c.message.bytes < 2 * 1024 * 1024 * 1024 - 4
      → do_io_completion do_handshake true 0 c ≡ record {
        context = writing_first c;
        effects = writes (be32 c.message.length ++ take (first_part c) c.message.bytes) ∷ [];
      }
  unfolding do_io_completion
  first_write c waiting some_bytes fits =
      let need : (length c.message.bytes + header_size) % u32_mod
          ≡ length c.message.bytes + header_size =
        omega arith in
      let (b, first) = head?-some c.message.bytes some_bytes in ground (arith, need, first)

  -- A reply of at least one byte, and of fewer than 2 ^ 31 - 4: the writes put its length, as a 32-bit
  -- number in network order, and then its bytes on the wire, in order and once, each write fits the
  -- buffer, and the connection then asks for the next header. The system is taken to complete each
  -- write whole; as many rounds as the reply has bytes, and one more, are enough.
  pub run_writes-Sends :
      (c : ProxyIoContext) (k : ℕ)
      → c.state ≡ wait_reply
      → 0 < length c.message.bytes
      → length c.message.bytes < 2 * 1024 * 1024 * 1024 - 4
      → length c.message.bytes < k
      → let s = do_io_completion do_handshake true 0 c in
        let t = run_writes k s.context in
        Sends
          (record { context = t.context; effects = s.effects ++ t.effects })
          (be32 c.message.length ++ c.message.bytes)
  run_writes-Sends c k waiting some_bytes fits enough =
      let part = take (first_part c) c.message.bytes in
      let part_size : length part ≡ first_part c =
        omega (arith, length-take (first_part c) c.message.bytes) in
      let size : length (be32 c.message.length ++ part) ≡ header_size + first_part c = omega (
        arith,
        part_size,
        length-append (be32 c.message.length) part,
        length-store_le 4 (byte_swap 4 c.message.length),
      ) in
      let rest =
        run_writes-rest k (writing_first c) refl (omega arith) fits (omega (arith, size))
          (omega (arith, size)) (omega arith) in
      rw (first_write c waiting some_bytes fits) (record {
        asks = rest.asks;
        sent =
            ap (◌++◌ (be32 c.message.length ++ part)) rest.sent
            ∙ append_assoc (be32 c.message.length) part _
            ∙ ap (◌++◌ (be32 c.message.length)) (take-append-drop (first_part c) c.message.bytes);
        bounded = (omega (arith, size), rest.bounded);
      })
