-- ===== src/Upstream/Exchange.antt =====
-- A whole exchange with an agent: the request goes out as a frame, its length and its bytes, and the
-- reply is the frame at the front of what comes in.
use ssh_agent_bridge.Base.{
  ℕ, ◌-◌, ◌^◌, ◌<◌, ◌≡◌, refl, sym, subst, ap, ◌∙◌, Bool, true, false, not, [], ◌∷◌, ◌++◌,
  append_assoc, append-nil, length, take, take-length, All, arith, ltb, if_lem,
}
use ssh_agent_bridge.Wire.{Bytes, IsByte, SshMessageEnvelope, header_size, u32_mod}
use ssh_agent_bridge.Wire.Words.{
  byte_swap, load_le, load_le-store_le, load_le-lt, store_le-load_le, byte_swap-byte_swap,
  byte_swap-lt,
}
use ssh_agent_bridge.Wire.RoundTrip.{be32}
use ssh_agent_bridge.Upstream.{
  Connection, Incoming, Exchanged, host_length, zeros, send_body, send_buffer, receive_buffer,
  receive_body, receive_reply, exchange_on_socket,
}
use ssh_agent_bridge.Upstream.Channel.{
  send_buffer-whole, send_body-whole, IsTaken, receive_buffer-IsTaken,
}

abbrev pub frame : SshMessageEnvelope → Bytes
frame m = be32 m.length ++ m.bytes

-- A successful exchange.
pub record IsExchanged (m : SshMessageEnvelope) (incoming : Bytes) (x : Exchanged) : Type 0 where
  pub request : x.wire ≡ frame m
  pub sized : x.message.length ≡ length x.message.bytes
  pub rest : Bytes
  pub reply : frame x.message ++ rest ≡ incoming

abbrev pub IfDone : SshMessageEnvelope → Bytes → Exchanged → Type 0
IfDone m incoming x = x.status ≡ true → IsExchanged m incoming x

-- The four bytes of a length are those of the length that is read from them.
be32-host_length : (bs : Bytes) → length bs ≡ 4 → All IsByte bs → be32 (host_length bs) ≡ bs
be32-host_length bs e h =
    let small = rw e at (load_le-lt bs h) in
    rw (byte_swap-byte_swap 4 (load_le bs) small) (rw e at (store_le-load_le bs h))

pub host_length-be32 : (n : ℕ) → n < u32_mod → host_length (be32 n) ≡ n
host_length-be32 n h =
    rw (load_le-store_le 4 (byte_swap 4 n) (byte_swap-lt 4 n)) (byte_swap-byte_swap 4 n h)

left_part : (xs ys : Bytes) → All IsByte (xs ++ ys) → All IsByte xs
left_part [] ys h = tt
left_part (x ∷ xs) ys h = (h.0, left_part xs ys h.1)

All-front : (xs ys zs : Bytes) → xs ++ ys ≡ zs → All IsByte zs → All IsByte xs
All-front xs ys zs e h = left_part xs ys (subst (λ t. All IsByte t) (sym e) h)

pub no_zeros : (bs : Bytes) (n : ℕ) → length bs ≡ n → bs ++ zeros (n - length bs) ≡ bs
no_zeros bs n e =
    let none_left : n - length bs ≡ 0 = omega (arith, e) in rw none_left (append-nil bs)

pub not-false : (b : Bool) → not b ≡ false → b ≡ true
not-false true e = refl
not-false false e = cc

whole_frame :
    (m : SshMessageEnvelope) (head body : Bytes)
    → m.length ≡ length m.bytes
    → head ≡ be32 m.length
    → body ≡ take m.length m.bytes
    → head ++ body ≡ frame m
whole_frame m head body sized h b =
    rw (h, b) (ap (λ t. be32 m.length ++ t) (take-length m.length m.bytes (omega (arith, sized))))

module _ (m : SshMessageEnvelope) (incoming : Bytes) (in_range : All IsByte incoming) where
  -- Two reads that succeed, of a header and of as many bytes as it says.
  pub two_reads :
      (status : Bool) (head body : Incoming) (bytes wire : Bytes)
      → wire ≡ frame m
      → IsTaken header_size incoming head
      → IsTaken (host_length head.bytes) head.incoming body
      → bytes ≡ body.bytes
      → IsExchanged m incoming (record {
        status = status;
        message = record { length = host_length head.bytes; bytes = bytes };
        wire = wire;
      })
  two_reads status head body bytes wire w h b e = record {
    request = w;
    sized = rw e (sym b.all);
    rest = body.incoming;
    reply =
        rw
          (
            be32-host_length head.bytes h.all
                (All-front head.bytes head.incoming incoming h.front in_range),
            e,
          )
          (append_assoc head.bytes body.bytes body.incoming
            ∙ ap (λ t. head.bytes ++ t) b.front
            ∙ h.front);
  }

  receive_reply-IsExchanged :
      (c : Connection) (old : ℕ) (wire : Bytes)
      → c.incoming ≡ incoming
      → wire ≡ frame m
      → (receive_reply c old wire).status ≡ true
      → IsExchanged m incoming (receive_reply c old wire)
  unfolding receive_reply receive_body
  receive_reply-IsExchanged c old wire same w =
      let head = receive_buffer c.reads header_size c.incoming in
      let n = host_length head.bytes in
      let body = receive_buffer head.script n head.incoming in
      if_lem (IfDone m incoming) head.is_received _ _
        (λ h.
          if_lem (IfDone m incoming) (ltb n (2 ^ 31)) _ _
            (λ small d.
              let t = receive_buffer-IsTaken head.script n head.incoming d in
              two_reads body.is_received head body (body.bytes ++ zeros (n - length body.bytes))
                wire w
                (subst (λ i. IsTaken header_size i head) same
                  (receive_buffer-IsTaken c.reads header_size c.incoming h))
                t (no_zeros body.bytes n t.all))
            (λ large d. cc))
        (λ h d. cc)

-- If an exchange over a socket reports success, then the agent was sent exactly the request's length,
-- most significant byte first, and its bytes, and the message is now the frame that the agent's
-- stream begins with: its length is the number of its bytes, and nothing behind it was taken. This is
-- for a request whose length is that of its bytes, and a stream of bytes.
pub exchange_on_socket-IsExchanged :
    (c : Connection) (m : SshMessageEnvelope)
    → m.length ≡ length m.bytes
    → All IsByte c.incoming
    → (exchange_on_socket c m).status ≡ true
    → IsExchanged m c.incoming (exchange_on_socket c m)
unfolding exchange_on_socket
exchange_on_socket-IsExchanged c m sized in_range =
    let head = send_buffer c.writes (be32 m.length) in
    let body = send_body head.script m in
    if_lem (IfDone m c.incoming) (not c.opens) _ _ (λ h d. cc)
      (λ o.
        if_lem (IfDone m c.incoming) (not head.is_sent) _ _ (λ h d. cc)
          (λ h.
            if_lem (IfDone m c.incoming) (not body.is_sent) _ _ (λ h d. cc)
              (λ b d.
                receive_reply-IsExchanged m c.incoming in_range c m.length (head.wire ++ body.wire)
                  refl
                  (whole_frame m head.wire body.wire sized
                    (send_buffer-whole c.writes (be32 m.length) (not-false head.is_sent h))
                    (send_body-whole head.script m (not-false body.is_sent b)))
                  d)))
