-- ===== src/Forwarding/Copying.antt =====
-- What is read from a peer is written to the other one, whole and in order.
use ssh_agent_bridge.Base.{
  ℕ, zero, suc, ◌+◌, ◌-◌, ◌≤◌, ◌≡◌, ◌≢◌, refl, sym, subst, ap, ◌∙◌, Bool, true, false, not, [], ◌∷◌,
  ◌++◌, append_assoc, append-nil, length, take, drop, take-append, take-append-drop, drop-drop,
  length-take, take-length, ltb, ◌==◌, if_lem, arith,
}
use ssh_agent_bridge.Wire.{Bytes}
use ssh_agent_bridge.Proxy.{max_buffer_size}
use ssh_agent_bridge.Forwarding.{
  State, ready, read, write, shutdown, Peer, ForwardIoContext, Step, peer, set_peer, forward_ready,
  forward_read, forward_write, forward_at, do_forward,
}
use ssh_agent_bridge.Forwarding.Peers.{
  pending_at, pending, last_write, deliver, peer-set_peer, peer-other, same_self, Has, reads-Has,
  writes-Has, end-Has, do_forward-other,
}

-- The bytes that were read for `i`, and those of them that were written, with what the last write
-- asked for.
abbrev pub delivered : Bool → Bool → Bytes → ForwardIoContext → Step
delivered i issued bs c = do_forward i issued (length bs) (deliver i bs c)

pub data Copied (i : Bool) : ForwardIoContext → Bytes → Bytes → Bytes → Type 0 where
  begins : {c : ForwardIoContext} → (peer i c).state ≡ ready → Copied i c [] [] []
  asks :
      {c : ForwardIoContext} {asked got put : Bytes} (issued : Bool) (n : ℕ)
      → Copied i c asked got put
      → (peer i c).state ≡ ready
      → Copied i
          (do_forward i issued n c).context
          (last_write i asked (do_forward i issued n c).effects)
          got
          put
  takes_in :
      {c : ForwardIoContext} {asked got put : Bytes} (issued : Bool) (bs : Bytes)
      → Copied i c asked got put
      → (peer i c).state ≡ read
      → Copied i
          (delivered i issued bs c).context
          (last_write i asked (delivered i issued bs c).effects)
          (got ++ bs)
          put
  puts_out :
      {c : ForwardIoContext} {asked got put : Bytes} (issued : Bool) (n : ℕ)
      → Copied i c asked got put
      → (peer i c).state ≡ write
      → n ≤ length asked
      → Copied i
          (do_forward i issued n c).context
          (last_write i asked (do_forward i issued n c).effects)
          got
          (put ++ take n asked)
  other_peer :
      {c : ForwardIoContext} {asked got put : Bytes} (issued : Bool) (bs : Bytes) (n : ℕ)
      → Copied i c asked got put
      → Copied i
          (do_forward (not i) issued n (deliver (not i) bs c)).context
          (last_write i asked (do_forward (not i) issued n (deliver (not i) bs c)).effects)
          got
          put

-- Nothing is lost, doubled or reordered, and a write asks for exactly what is still to be written.
pub record IsWhole (p : Peer) (asked got put : Bytes) : Type 0 where
  pub whole : put ++ pending p ≡ got
  pub asks_for : p.state ≡ write → asked ≡ pending p

take_nil : (n : ℕ) → [] ≡ take {A = ℕ} n []
take_nil zero = refl
take_nil (suc n) = refl

drop-take : (n m : ℕ) (xs : Bytes) → drop n (take m xs) ≡ take (m - n) (drop n xs)
drop-take zero m xs = let e : m - 0 ≡ m = omega arith in rw e refl
drop-take (suc n) zero xs = let e : 0 - suc n ≡ 0 = omega arith in rw e refl
drop-take (suc n) (suc m) [] = take_nil (suc m - suc n)
drop-take (suc n) (suc m) (x ∷ xs) =
    let e : suc m - suc n ≡ m - n = omega arith in rw e (drop-take n m xs)

empty : (bs : Bytes) → (length bs == 0) ≡ true → bs ≡ []
empty [] e = refl
empty (b ∷ bs) e = absurd (ground (arith, e))

ready_not_write : ready ≢ write
ready_not_write = λ e. cc

read_not_write : read ≢ write
read_not_write = λ e. cc

shutdown_not_write : shutdown ≢ write
shutdown_not_write = λ e. cc

-- A peer that does not write has nothing left.
idle-IsWhole :
    (p : Peer) (asked got put : Bytes)
    → p.state ≢ write
    → pending p ≡ []
    → put ≡ got
    → IsWhole p asked got put
idle-IsWhole p asked got put n none_left e = record {
  whole = rw none_left (append-nil put ∙ e);
  asks_for = λ w. absurd (n w);
}

short : (bs : Bytes) (m n : ℕ) (xs : Bytes) → bs ≡ take m xs → ltb 0 (m - n) ≡ false → length bs ≤ n
short bs m n xs e t = let size = ap length e ∙ length-take m xs in ground (arith, size, t)

module _ (i : Bool) (got put : Bytes) where
  abbrev Whole : Peer → Bytes → Type 0
  Whole p asked = IsWhole p asked got put

  ready-Has :
      (asked : Bytes) (issued : Bool) (c : ForwardIoContext)
      → (peer i c).state ≡ ready
      → put ≡ got
      → Has i Whole asked (forward_ready i issued c)
  unfolding forward_ready
  ready-Has asked issued c e h =
      let p : Peer = record (peer i c) { state = read } in
      reads-Has i Whole asked i issued max_buffer_size c (set_peer i p c)
        (idle-IsWhole (peer i c) asked got put (rw e ready_not_write) (rw e refl) h)
        (rw (peer-set_peer i p c) (idle-IsWhole p asked got put read_not_write refl h))

  read-Has :
      (asked bs : Bytes) (issued : Bool) (c : ForwardIoContext)
      → take (length bs) (peer i c).buffer ≡ bs
      → put ≡ got
      → Has i (λ p a. IsWhole p a (got ++ bs) put) asked (forward_read i issued (length bs) c)
  unfolding forward_read
  read-Has asked bs issued c front h =
      let p : Peer = record (peer i c) {
        need_transfer = length bs;
        buffer_offset = 0;
        state = write;
      } in
      if_lem (Has i (λ p a. IsWhole p a (got ++ bs) put) asked) (length bs == 0) _ _
        (λ e.
          end-Has i (λ p a. IsWhole p a (got ++ bs) put) asked i c
            (rw (peer-set_peer i (record (peer i c) { state = shutdown }) c, empty bs e)
              (idle-IsWhole _ asked (got ++ []) put shutdown_not_write refl
                (h ∙ sym (append-nil got)))))
        (λ e.
          writes-Has i (λ p a. IsWhole p a (got ++ bs) put) asked _ i issued (set_peer i p c)
            (rw (peer-set_peer i p c, same_self i)
              (record { whole = rw front (ap (λ t. t ++ bs) h); asks_for = λ w. refl })))

  write-Has :
      (asked : Bytes) (n : ℕ) (issued : Bool) (c : ForwardIoContext)
      → (peer i c).state ≡ write
      → asked ≡ pending (peer i c)
      → put ++ asked ≡ got
      → Has i (λ p a. IsWhole p a got (put ++ take n asked)) asked (forward_write i issued n c)
  unfolding forward_write forward_ready
  write-Has asked n issued c w e h =
      let p = peer i c in
      let need = p.need_transfer - n in
      let offset = p.buffer_offset + n in
      let more = set_peer i (record p { need_transfer = need; buffer_offset = offset }) c in
      let sent = set_peer i (record p { need_transfer = need; state = ready }) c in
      let given : asked ≡ take p.need_transfer (drop p.buffer_offset p.buffer) = rw w at e in
      let left : drop n asked ≡ take need (drop offset p.buffer) =
        ap (drop n) given
        ∙ drop-take n p.need_transfer (drop p.buffer_offset p.buffer)
        ∙ ap (take need) (drop-drop p.buffer_offset n p.buffer) in
      let split : (put ++ take n asked) ++ drop n asked ≡ got =
        append_assoc put (take n asked) (drop n asked)
        ∙ ap (λ t. put ++ t) (take-append-drop n asked)
        ∙ h in
      if_lem (Has i (λ p a. IsWhole p a got (put ++ take n asked)) asked) (ltb 0 need) _ _
        (λ t.
          writes-Has i (λ p a. IsWhole p a got (put ++ take n asked)) asked _ i issued more
            (rw
              (
                peer-set_peer i (record p { need_transfer = need; buffer_offset = offset }) c,
                same_self i,
                w,
              )
              (record { whole = rw (sym left) split; asks_for = λ s. refl })))
        (λ t.
          let over : put ++ take n asked ≡ got =
            ap (λ bs. put ++ bs) (take-length n asked (short asked p.need_transfer n _ given t))
            ∙ h in
          reads-Has i (λ p a. IsWhole p a got (put ++ take n asked)) asked i issued max_buffer_size
            sent (set_peer i (record (peer i sent) { state = read }) sent)
            (rw (peer-set_peer i (record p { need_transfer = need; state = ready }) c)
              (idle-IsWhole _ asked got (put ++ take n asked) ready_not_write refl over))
            (rw (peer-set_peer i (record (peer i sent) { state = read }) sent)
              (idle-IsWhole _ asked got (put ++ take n asked) read_not_write refl over)))

settled :
    (p : Peer) (st : State) (asked got put : Bytes)
    → p.state ≡ st
    → pending_at st p ≡ []
    → IsWhole p asked got put
    → put ≡ got
settled p st asked got put e none_left h =
    let whole : put ++ pending_at st p ≡ got = subst (λ s. put ++ pending_at s p ≡ got) e h.whole in
    sym (append-nil put) ∙ ap (λ t. put ++ t) (sym none_left) ∙ whole

-- However the steps of the two peers are interleaved, whatever the system reads, writes and refuses: the
-- bytes written for a peer, with those that wait in its buffer, are the bytes that were read from it,
-- in order, and while a write is under way it asks for exactly those that wait. No write takes more
-- than it was given.
pub Copied-IsWhole :
    (i : Bool) (c : ForwardIoContext) (asked got put : Bytes)
    → Copied i c asked got put
    → IsWhole (peer i c) asked got put
unfolding do_forward forward_at
Copied-IsWhole i c _ _ _ (begins e) =
    idle-IsWhole (peer i c) [] [] [] (rw e ready_not_write) (rw e refl) refl
Copied-IsWhole i _ _ got put (asks {c = c} {asked = asked} issued n h e) =
    let all = settled (peer i c) ready asked got put e refl (Copied-IsWhole i c asked got put h) in
    subst (λ st. Has i (Whole i got put) asked (forward_at st i issued n c)) (sym e)
      (ready-Has i got put asked issued c e all)
Copied-IsWhole i _ _ _ put (takes_in {c = c} {asked = asked} {got = got} issued bs h e) =
    let all = settled (peer i c) read asked got put e refl (Copied-IsWhole i c asked got put h) in
    let p : Peer = record (peer i c) { buffer = bs ++ drop (length bs) (peer i c).buffer } in
    let filled = peer-set_peer i p c in
    let front : take (length bs) (peer i (deliver i bs c)).buffer ≡ bs =
      rw filled (take-append bs (drop (length bs) (peer i c).buffer)) in
    subst
      (λ st.
        Has i (λ p a. IsWhole p a (got ++ bs) put) asked
          (forward_at st i issued (length bs) (deliver i bs c)))
      (sym (ap (λ p. p.state) filled ∙ e))
      (read-Has i got put asked bs issued (deliver i bs c) front all)
Copied-IsWhole i _ _ got _ (puts_out {c = c} {asked = asked} {put = put} issued n h e b) =
    let ih = Copied-IsWhole i c asked got put h in
    let all : put ++ asked ≡ got = ap (λ t. put ++ t) (ih.asks_for e) ∙ ih.whole in
    subst
      (λ st.
        Has i (λ p a. IsWhole p a got (put ++ take n asked)) asked (forward_at st i issued n c))
      (sym e) (write-Has i got put asked n issued c e (ih.asks_for e) all)
Copied-IsWhole i _ _ got put (other_peer {c = c} {asked = asked} issued bs n h) =
    let c1 = deliver (not i) bs c in
    let kept = do_forward-other i asked issued n c1 in
    rw
      (
        kept.0,
        kept.1,
        peer-other i
            (record (peer (not i) c) { buffer = bs ++ drop (length bs) (peer (not i) c).buffer }) c,
      )
      (Copied-IsWhole i c asked got put h)
