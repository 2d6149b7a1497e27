-- ===== src/Proxy/Limits.antt =====
-- What holds of a connection whatever its client sends and whatever the system completes.
use ssh_agent_bridge.Base.{
  ℕ, ◌+◌, ◌-◌, ◌%◌, ◌^◌, ◌≤◌, ◌<◌, ◌≡◌, refl, sym, subst, ap, not, Bool, true, false, [], ◌∷◌, ◌++◌,
  Option, none, some, length, length-append, length-take, take, drop, head?, min, All, All-append,
  arith, ltb, leb, ◌==◌, if◌then◌else◌,
}
use ssh_agent_bridge.Wire.{Bytes, u32_mod, max_message_size, header_size}
use ssh_agent_bridge.Wire.RoundTrip.{be32}
use ssh_agent_bridge.Proxy.{
  State, initialized, handshake, ready, read_header, read_body, wait_reply, write_reply, destroyed,
  Effect, reads, writes, receives, faults, ProxyIoContext, Step, Handshaken, do_io_completion,
  do_io_completion_at, finish_handshake, append_body, hand_on, issue, finish_header, read_length,
  read_next, write_first, write_more, finish_write, dispose, dispose_at, deliver, max_buffer_size,
  sub_int, is_negative, is_positive,
}

-- What a context that is being read into satisfies.
abbrev pub WithinAt : State → ProxyIoContext → Type 0
WithinAt read_header c = (c.message.bytes ≡ []) × (c.io_need_bytes ≡ header_size)
WithinAt read_body c =
    (length c.message.bytes + c.io_need_bytes ≤ c.message.length)
    × (c.message.length ≤ max_message_size)
WithinAt _ c = Unit

abbrev pub IsWithin : ProxyIoContext → Type 0
IsWithin c = WithinAt c.state c

-- A read fits in the buffer, and a message that is handed on has at most `MAX_MESSAGE_SIZE` bytes.
abbrev pub IsLimited : Effect → Type 0
IsLimited (reads n) = n ≤ max_buffer_size
IsLimited (receives m) = (length m.bytes ≤ m.length) × (m.length ≤ max_message_size)
IsLimited _ = Unit

abbrev pub StaysWithin : Step → Type 0
StaysWithin s = IsWithin s.context × All IsLimited s.effects

dispose-StaysWithin :
    (st : State) (c : ProxyIoContext) → c.state ≡ st → StaysWithin (dispose_at st c)
unfolding dispose_at
dispose-StaysWithin destroyed c e = (rw e tt, tt)
dispose-StaysWithin _ c e = (tt, (tt, (tt, tt)))

issue-StaysWithin :
    (issued : Bool) (f : Effect) (c : ProxyIoContext)
    → IsWithin c
    → IsLimited f
    → StaysWithin (issue issued f c)
unfolding issue dispose
issue-StaysWithin true f c w l = (w, (l, tt))
issue-StaysWithin false f c w l = let d = dispose-StaysWithin c.state c refl in (d.0, (l, d.1))

read_next-StaysWithin : (issued : Bool) (c : ProxyIoContext) → StaysWithin (read_next issued c)
unfolding read_next
read_next-StaysWithin issued c =
    issue-StaysWithin issued (reads header_size) _ (refl, refl) (omega arith)

if-StaysWithin :
    (b : Bool) (s t : Step)
    → (b ≡ true → StaysWithin s)
    → (b ≡ false → StaysWithin t)
    → StaysWithin (if b then s else t)
if-StaysWithin true s t yes_case no_case = yes_case refl
if-StaysWithin false s t yes_case no_case = no_case refl

read_length-StaysWithin :
    (issued : Bool) (n : ℕ) (c : ProxyIoContext)
    → c.state ≡ read_body
    → c.message.bytes ≡ []
    → StaysWithin (read_length issued n c)
unfolding read_length dispose
read_length-StaysWithin issued n c body empty =
    if-StaysWithin (ltb max_message_size n) _ _ (λ long. dispose-StaysWithin c.state _ refl)
      λ short.
        issue-StaysWithin issued _ _
          (subst
            (λ st. WithinAt st (record c {
              message = record { length = n; bytes = c.message.bytes };
              io_need_bytes = n;
            }))
            (sym body) (omega (arith, ap length empty), ground arith))
          (omega arith)

finish_header-StaysWithin :
    (issued : Bool) (transferred : ℕ) (c : ProxyIoContext)
    → WithinAt read_header c
    → StaysWithin (finish_header issued transferred c)
unfolding finish_header dispose
finish_header-StaysWithin issued transferred c w =
    if-StaysWithin (not (sub_int c.io_need_bytes transferred == 0)) _ _
      (λ partial. (tt, (tt, (tt, tt))))
      λ full.
        read_length-StaysWithin issued _
          (record c { state = read_body; io_need_bytes = sub_int c.io_need_bytes transferred }) refl
          w.0

hand_on-StaysWithin :
    (first : Option ℕ) (c : ProxyIoContext)
    → c.state ≡ wait_reply
    → length c.message.bytes ≤ c.message.length
    → c.message.length ≤ max_message_size
    → StaysWithin (hand_on first c)
unfolding hand_on
hand_on-StaysWithin none c e size small = (subst (λ st. WithinAt st c) (sym e) tt, (tt, tt))
hand_on-StaysWithin (some b) c e size small =
    (subst (λ st. WithinAt st c) (sym e) tt, ((size, small), tt))

append_body-StaysWithin :
    (issued : Bool) (transferred : ℕ) (c : ProxyIoContext)
    → transferred < 2 ^ 31
    → c.state ≡ read_body
    → WithinAt read_body c
    → StaysWithin (append_body issued transferred c)
unfolding append_body dispose
append_body-StaysWithin issued transferred c small body w =
    if-StaysWithin (is_negative need) _ _ (λ over. dispose-StaysWithin c.state _ refl)
      λ inside.
        if-StaysWithin (is_positive need) _ _
          (λ more.
            issue-StaysWithin issued _ grown
              (subst (λ st. WithinAt st grown) (sym body) (room (fits inside), w.1)) (omega arith))
          λ over.
            hand_on-StaysWithin (head? grown.message.bytes) (record grown { state = wait_reply })
              refl (omega (arith, room (fits inside))) w.1
  where
    need : ℕ
    need = sub_int c.io_need_bytes transferred

    grown : ProxyIoContext
    grown = record c {
      io_need_bytes = need;
      message = record {
        length = c.message.length;
        bytes = c.message.bytes ++ take transferred c.io_buffer;
      };
    }

    fits : is_negative need ≡ false → need + transferred ≡ c.io_need_bytes
    fits inside = ground (arith, w.0, w.1)

    room :
        need + transferred ≡ c.io_need_bytes → length grown.message.bytes + need ≤ c.message.length
    room e = omega (
      arith,
      e,
      w.0,
      length-append c.message.bytes (take transferred c.io_buffer),
      length-take transferred c.io_buffer,
    )

writing-IsWithin : (c : ProxyIoContext) → c.state ≡ write_reply → IsWithin c
writing-IsWithin c e = subst (λ st. WithinAt st c) (sym e) tt

write_first-StaysWithin :
    (issued : Bool) (first : Option ℕ) (c : ProxyIoContext)
    → c.state ≡ write_reply
    → StaysWithin (write_first issued first c)
unfolding write_first
write_first-StaysWithin issued none c e = (writing-IsWithin c e, (tt, tt))
write_first-StaysWithin issued (some b) c e =
    let need = (length c.message.bytes + header_size) % u32_mod in
    let offset = min max_buffer_size need - header_size in
    let buffer = be32 c.message.length ++ take offset c.message.bytes in
    let d : ProxyIoContext = record c {
      io_buffer_offset = header_size;
      io_need_bytes = need;
      io_data_offset = offset;
      io_buffer = buffer;
    } in
    issue-StaysWithin issued (writes buffer) d (writing-IsWithin d e) tt

write_more-StaysWithin :
    (issued : Bool) (need : ℕ) (c : ProxyIoContext)
    → c.state ≡ write_reply
    → StaysWithin (write_more issued need c)
unfolding write_more
write_more-StaysWithin issued need c e =
    let count = min max_buffer_size need in
    let buffer = take count (drop c.io_data_offset c.message.bytes) in
    let d : ProxyIoContext = record c {
      io_data_offset = c.io_data_offset + count;
      io_buffer = buffer;
    } in
    if-StaysWithin (leb (c.io_data_offset + count) (length c.message.bytes)) _
      (record { context = c; effects = faults ∷ [] })
      (λ inside. issue-StaysWithin issued (writes buffer) d (writing-IsWithin d e) tt)
      λ outside. (writing-IsWithin c e, (tt, tt))

finish_write-StaysWithin :
    (issued : Bool) (transferred : ℕ) (c : ProxyIoContext)
    → c.state ≡ write_reply
    → StaysWithin (finish_write issued transferred c)
unfolding finish_write
finish_write-StaysWithin issued transferred c e =
    let need = sub_int c.io_need_bytes transferred in
    if-StaysWithin (is_positive need) _ _
      (λ more. write_more-StaysWithin issued need (record c { io_need_bytes = need }) e)
      λ over. read_next-StaysWithin issued (record c { io_need_bytes = need; state = ready })

-- The states in which a call of `DoHandshake` leaves its context.
pub data IsLeftIn : State → Type 0 where
  stays : IsLeftIn handshake
  goes : IsLeftIn destroyed

-- A listener's handshake, called on a context in the state of the handshake, issues no read larger
-- than the buffer, hands on no message, and leaves the context in this state or disposes of it.
pub record KeepsWithin (do_handshake : ProxyIoContext → ℕ → Handshaken) : Type 0 where
  pub limited :
      (c : ProxyIoContext) (n : ℕ) → c.state ≡ handshake → All IsLimited (do_handshake c n).effects
  pub left :
      (c : ProxyIoContext) (n : ℕ) → c.state ≡ handshake → IsLeftIn (do_handshake c n).context.state

IsLeftIn-WithinAt : {st : State} (c : ProxyIoContext) → IsLeftIn st → WithinAt st c
IsLeftIn-WithinAt c stays = tt
IsLeftIn-WithinAt c goes = tt

module _ (do_handshake : ProxyIoContext → ℕ → Handshaken) (polite : KeepsWithin do_handshake) where
  finish_handshake-StaysWithin :
      (issued : Bool) (transferred : ℕ) (c : ProxyIoContext)
      → c.state ≡ handshake
      → StaysWithin (finish_handshake do_handshake issued transferred c)
  unfolding finish_handshake
  finish_handshake-StaysWithin issued transferred c e =
      let h = do_handshake c transferred in
      let next = read_next-StaysWithin issued h.context in
      if-StaysWithin h.is_done _ _
        (λ done. (next.0, All-append IsLimited h.effects _ (polite.limited c transferred e) next.1))
        λ going. (
          IsLeftIn-WithinAt h.context (polite.left c transferred e),
          polite.limited c transferred e,
        )

  do_io_completion_at-StaysWithin :
      (st : State) (issued : Bool) (transferred : ℕ) (c : ProxyIoContext)
      → c.state ≡ st
      → transferred < 2 ^ 31
      → WithinAt st c
      → StaysWithin (do_io_completion_at do_handshake st issued transferred c)
  unfolding do_io_completion_at dispose
  do_io_completion_at-StaysWithin handshake issued n c e small w =
      finish_handshake-StaysWithin issued n c e
  do_io_completion_at-StaysWithin ready issued n c e small w = read_next-StaysWithin issued c
  do_io_completion_at-StaysWithin read_header issued n c e small w =
      finish_header-StaysWithin issued n c w
  do_io_completion_at-StaysWithin read_body issued n c e small w =
      append_body-StaysWithin issued n c small e w
  do_io_completion_at-StaysWithin wait_reply issued n c e small w =
      write_first-StaysWithin issued (head? c.message.bytes) (record c { state = write_reply }) refl
  do_io_completion_at-StaysWithin write_reply issued n c e small w =
      finish_write-StaysWithin issued n c e
  do_io_completion_at-StaysWithin initialized issued n c e small w =
      dispose-StaysWithin c.state c refl
  do_io_completion_at-StaysWithin destroyed issued n c e small w =
      dispose-StaysWithin c.state c refl

  -- From a connection within these bounds, with a listener's handshake that issues no larger read
  -- and keeps its connection in the handshake or disposes of it until it is done, whatever
  -- the client sends, however the system completes a transfer of fewer than 2 ^ 31 bytes, and
  -- whether or not it accepts the next one: reads fit in the buffer, a message that is handed on
  -- has at most `MAX_MESSAGE_SIZE` bytes, and what was collected and what is missing of a body
  -- never exceed the length in its header, which never exceeds that bound either.
  pub do_io_completion-StaysWithin :
      (issued : Bool) (transferred : ℕ) (bs : Bytes) (c : ProxyIoContext)
      → transferred < 2 ^ 31
      → IsWithin c
      → StaysWithin (do_io_completion do_handshake issued transferred (deliver bs c))
  unfolding do_io_completion
  do_io_completion-StaysWithin issued transferred bs c small w =
      do_io_completion_at-StaysWithin c.state issued transferred (deliver bs c) refl small
        (delivered c.state w)
    where
      delivered : (st : State) → WithinAt st c → WithinAt st (deliver bs c)
      delivered read_header h = h
      delivered read_body h = h
      delivered _ h = tt
