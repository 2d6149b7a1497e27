-- ===== src/Forwarding/Peers.antt =====
-- What a step of one peer does to a peer, and to the writes asked for.
use ssh_agent_bridge.Base.{
  ℕ, ◌-◌, ◌≡◌, refl, ◌∙◌, Bool, true, false, not, ◌&&◌, List, [], ◌∷◌, ◌++◌, length, take, drop,
  ltb, ◌==◌, if_lem, if◌then◌else◌,
}
use ssh_agent_bridge.Wire.{Bytes}
use ssh_agent_bridge.Proxy.{max_buffer_size}
use ssh_agent_bridge.Forwarding.{
  ContextState, hand_shake, established, destroyed, State, initialized, ready, read, write,
  shutdown, Peer, ForwardIoContext, Effect, reads, writes, shuts_receive, shuts_send, Step, peer,
  set_peer, dispose, dispose_at, check_end, is_shutdown, issue, forward_ready, forward_end,
  forward_read, forward_write, forward_at, do_forward,
}

-- What was read from a peer and is not yet written to the other one.
abbrev pub pending_at : State → Peer → Bytes
pending_at write p = take p.need_transfer (drop p.buffer_offset p.buffer)
pending_at _ p = []

abbrev pub pending : Peer → Bytes
pending p = pending_at p.state p

abbrev pub same : Bool → Bool → Bool
same false false = true
same true true = true
same _ _ = false

-- The bytes of the last write for the peer `i`.
abbrev pub last_write : Bool → Bytes → List Effect → Bytes
last_write i asked [] = asked
last_write i asked (writes j bs ∷ es) = last_write i (if same i j then bs else asked) es
last_write i asked (_ ∷ es) = last_write i asked es

-- The system has read these bytes into the front of the buffer of `i`.
abbrev pub deliver : Bool → Bytes → ForwardIoContext → ForwardIoContext
deliver i bs c =
    set_peer i (record (peer i c) { buffer = bs ++ drop (length bs) (peer i c).buffer }) c

pub peer-set_peer : (i : Bool) (p : Peer) (c : ForwardIoContext) → peer i (set_peer i p c) ≡ p
peer-set_peer false p c = refl
peer-set_peer true p c = refl

pub peer-other :
    (i : Bool) (p : Peer) (c : ForwardIoContext) → peer i (set_peer (not i) p c) ≡ peer i c
peer-other false p c = refl
peer-other true p c = refl

peer-state :
    (i : Bool) (st : ContextState) (c : ForwardIoContext)
    → peer i (record c { context_state = st }) ≡ peer i c
peer-state false st c = refl
peer-state true st c = refl

pub same_self : (i : Bool) → same i i ≡ true
same_self false = refl
same_self true = refl

same-not : (i : Bool) → same i (not i) ≡ false
same-not false = refl
same-not true = refl

-- A property of a peer, and of the last write asked for, that a step has.
module _ (i : Bool) (P : Peer → Bytes → Type 0) where
  abbrev pub Has : Bytes → Step → Type 0
  Has asked s = P (peer i s.context) (last_write i asked s.effects)

  dispose_at-Has :
      (asked : Bytes) (st : ContextState) (c : ForwardIoContext)
      → P (peer i c) asked
      → Has asked (dispose_at st c)
  unfolding dispose_at
  dispose_at-Has asked destroyed c h = h
  dispose_at-Has asked initialized c h = rw (peer-state i destroyed c) h
  dispose_at-Has asked hand_shake c h = rw (peer-state i destroyed c) h
  dispose_at-Has asked established c h = rw (peer-state i destroyed c) h

  dispose-Has : (asked : Bytes) (c : ForwardIoContext) → P (peer i c) asked → Has asked (dispose c)
  unfolding dispose
  dispose-Has asked c h = dispose_at-Has asked c.context_state c h

  check_end-Has :
      (asked : Bytes) (c : ForwardIoContext) → P (peer i c) asked → Has asked (check_end c)
  unfolding check_end
  check_end-Has asked c h =
      if_lem (Has asked) (is_shutdown c.first.state && is_shutdown c.second.state) _ _
        (λ e. dispose-Has asked c h) (λ e. h)

  pub reads-Has :
      (asked : Bytes) (j issued : Bool) (n : ℕ) (refused c : ForwardIoContext)
      → P (peer i refused) asked
      → P (peer i c) asked
      → Has asked (issue issued (reads j n) refused c)
  unfolding issue
  reads-Has asked j true n refused c h k = check_end-Has asked c k
  reads-Has asked j false n refused c h k = dispose-Has asked refused h

  pub writes-Has :
      (asked bs : Bytes) (j issued : Bool) (c : ForwardIoContext)
      → P (peer i c) (if same i j then bs else asked)
      → Has asked (issue issued (writes j bs) c c)
  unfolding issue
  writes-Has asked bs j true c h = check_end-Has (if same i j then bs else asked) c h
  writes-Has asked bs j false c h = dispose-Has (if same i j then bs else asked) c h

  shuts-Has :
      (asked : Bytes) (j k : Bool) (mine other : Bool) (s : Step)
      → Has asked s
      → Has asked (
          let s' = if other then record s { effects = shuts_send k ∷ s.effects } else s in
          if mine then record s' { effects = shuts_receive j ∷ s'.effects } else s')
  shuts-Has asked j k true true s h = h
  shuts-Has asked j k true false s h = h
  shuts-Has asked j k false true s h = h
  shuts-Has asked j k false false s h = h

  pub end-Has :
      (asked : Bytes) (j : Bool) (c : ForwardIoContext)
      → P (peer i (set_peer j (record (peer j c) { state = shutdown }) c)) asked
      → Has asked (forward_end j c)
  unfolding forward_end
  end-Has asked j c h =
      shuts-Has asked j (not j) (peer j c).is_socket (peer (not j) c).is_socket _
        (check_end-Has asked (set_peer j (record (peer j c) { state = shutdown }) c) h)

-- The steps of the other peer leave this one as it is, and write nothing of its bytes.
module _ (i : Bool) (asked : Bytes) where
  abbrev pub Kept : ForwardIoContext → Peer → Bytes → Type 0
  Kept c p a = (p ≡ peer i c) × (a ≡ asked)

  abbrev pub IsSame : ForwardIoContext → Step → Type 0
  IsSame c s = Has i (Kept c) asked s

  written_elsewhere :
      (p : Peer) (bs : Bytes) (c : ForwardIoContext)
      → Kept c (peer i (set_peer (not i) p c)) (if same i (not i) then bs else asked)
  written_elsewhere p bs c = rw (same-not i) (peer-other i p c, refl)

  forward_at-other :
      (st : State) (issued : Bool) (n : ℕ) (c : ForwardIoContext)
      → IsSame c (forward_at st (not i) issued n c)
  unfolding forward_at forward_ready forward_read forward_write
  forward_at-other initialized issued n c = dispose-Has i (Kept c) asked c (refl, refl)
  forward_at-other shutdown issued n c = dispose-Has i (Kept c) asked c (refl, refl)
  forward_at-other ready issued n c =
      reads-Has i (Kept c) asked (not i) issued max_buffer_size c _ (refl, refl)
        (peer-other i _ c, refl)
  forward_at-other read issued n c =
      if_lem (IsSame c) (n == 0) _ _
        (λ e. end-Has i (Kept c) asked (not i) c (peer-other i _ c, refl))
        (λ e. writes-Has i (Kept c) asked _ (not i) issued _ (written_elsewhere _ _ c))
  forward_at-other write issued n c =
      if_lem (IsSame c) (ltb 0 ((peer (not i) c).need_transfer - n)) _ _
        (λ e. writes-Has i (Kept c) asked _ (not i) issued _ (written_elsewhere _ _ c))
        (λ e.
          reads-Has i (Kept c) asked (not i) issued max_buffer_size _ _ (peer-other i _ c, refl)
            (peer-other i _ _ ∙ peer-other i _ c, refl))

  pub do_forward-other :
      (issued : Bool) (n : ℕ) (c : ForwardIoContext) → IsSame c (do_forward (not i) issued n c)
  unfolding do_forward
  do_forward-other issued n c = forward_at-other (peer (not i) c).state issued n c
