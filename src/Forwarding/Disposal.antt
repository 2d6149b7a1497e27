-- ===== src/Forwarding/Disposal.antt =====
-- A context is taken off the manager's list at most once by the steps of its peers.
use ssh_agent_bridge.Base.{
  ℕ, ◌+◌, ◌-◌, ◌≡◌, refl, ◌∙◌, Bool, true, false, not, ◌&&◌, List, [], ◌∷◌, ◌++◌, ltb, ◌==◌,
  if◌then◌else◌, take, drop, arith,
}
use ssh_agent_bridge.Proxy.{max_buffer_size}
use ssh_agent_bridge.Forwarding.{
  ContextState, hand_shake, established, destroyed, State, initialized, ready, read, write,
  shutdown, Peer, ForwardIoContext, Effect, reads, writes, shuts_receive, shuts_send, cancels_io,
  removes_context, Step, peer, set_peer, dispose, dispose_at, check_end, is_shutdown, issue,
  forward_ready, forward_end, forward_read, forward_write, forward_at, do_forward,
}

-- How often a step takes the context off the list, and how often it may still be.
abbrev pub removals : List Effect → ℕ
removals [] = 0
removals (removes_context ∷ es) = 1 + removals es
removals (_ ∷ es) = removals es

abbrev pub live_at : ContextState → ℕ
live_at destroyed = 0
live_at _ = 1

abbrev pub live : ForwardIoContext → ℕ
live c = live_at c.context_state

-- The step uses up what it removes.
abbrev pub IsAccounted : ForwardIoContext → Step → Type 0
IsAccounted c s = removals s.effects + live s.context ≡ live c

if-IsAccounted :
    (c : ForwardIoContext) (b : Bool) (s t : Step)
    → IsAccounted c s
    → IsAccounted c t
    → IsAccounted c (if b then s else t)
if-IsAccounted c true s t h k = h
if-IsAccounted c false s t h k = k

dispose_at-IsAccounted :
    (st : ContextState) (c : ForwardIoContext)
    → c.context_state ≡ st
    → IsAccounted c (dispose_at st c)
unfolding dispose_at
dispose_at-IsAccounted destroyed c e = omega arith
dispose_at-IsAccounted initialized c e = rw e refl
dispose_at-IsAccounted hand_shake c e = rw e refl
dispose_at-IsAccounted established c e = rw e refl

dispose-IsAccounted : (c : ForwardIoContext) → IsAccounted c (dispose c)
unfolding dispose
dispose-IsAccounted c = dispose_at-IsAccounted c.context_state c refl

check_end-IsAccounted : (c : ForwardIoContext) → IsAccounted c (check_end c)
unfolding check_end
check_end-IsAccounted c =
    if-IsAccounted c (is_shutdown c.first.state && is_shutdown c.second.state) _ _
      (dispose-IsAccounted c) (omega arith)

live-set_peer : (i : Bool) (p : Peer) (c : ForwardIoContext) → live (set_peer i p c) ≡ live c
live-set_peer false p c = refl
live-set_peer true p c = refl

-- A read or write from a context that is as live as `c`.
issue-IsAccounted :
    (issued : Bool) (f : Effect) (c refused c' : ForwardIoContext)
    → ((es : List Effect) → removals (f ∷ es) ≡ removals es)
    → live refused ≡ live c
    → live c' ≡ live c
    → IsAccounted c (issue issued f refused c')
unfolding issue
issue-IsAccounted true f c refused c' none_here h k =
    omega (arith, none_here (check_end c').effects, check_end-IsAccounted c')
issue-IsAccounted false f c refused c' none_here h k =
    omega (arith, none_here (dispose refused).effects, dispose-IsAccounted refused)

forward_ready-IsAccounted :
    (i issued : Bool) (c c' : ForwardIoContext)
    → live c' ≡ live c
    → IsAccounted c (forward_ready i issued c')
unfolding forward_ready
forward_ready-IsAccounted i issued c c' h =
    let p = record (peer i c') { state = read } in
    issue-IsAccounted issued (reads i max_buffer_size) c c' (set_peer i p c') (λ es. refl) h
      (live-set_peer i p c' ∙ h)

forward_end-IsAccounted : (i : Bool) (c : ForwardIoContext) → IsAccounted c (forward_end i c)
unfolding forward_end
forward_end-IsAccounted i c = of_sockets (peer i c).is_socket (peer (not i) c).is_socket
  where
    ended : ForwardIoContext
    ended = set_peer i (record (peer i c) { state = shutdown }) c

    of_sockets :
        (mine other : Bool)
        → IsAccounted c (
            let s = check_end ended in
            let s' = if other then record s { effects = shuts_send (not i) ∷ s.effects } else s in
            if mine then record s' { effects = shuts_receive i ∷ s'.effects } else s')
    of_sockets true true = omega (
      arith,
      check_end-IsAccounted ended,
      live-set_peer i (record (peer i c) { state = shutdown }) c,
    )
    of_sockets true false = omega (
      arith,
      check_end-IsAccounted ended,
      live-set_peer i (record (peer i c) { state = shutdown }) c,
    )
    of_sockets false true = omega (
      arith,
      check_end-IsAccounted ended,
      live-set_peer i (record (peer i c) { state = shutdown }) c,
    )
    of_sockets false false = omega (
      arith,
      check_end-IsAccounted ended,
      live-set_peer i (record (peer i c) { state = shutdown }) c,
    )

forward_at-IsAccounted :
    (st : State) (i issued : Bool) (n : ℕ) (c : ForwardIoContext)
    → IsAccounted c (forward_at st i issued n c)
unfolding forward_at forward_read forward_write
forward_at-IsAccounted ready i issued n c = forward_ready-IsAccounted i issued c c refl
forward_at-IsAccounted read i issued n c =
    let p = record (peer i c) { need_transfer = n; buffer_offset = 0; state = write } in
    let same = live-set_peer i p c in
    if-IsAccounted c (n == 0) (forward_end i c)
      (issue issued (writes i (take n p.buffer)) (set_peer i p c) (set_peer i p c))
      (forward_end-IsAccounted i c)
      (issue-IsAccounted issued (writes i (take n p.buffer)) c (set_peer i p c) (set_peer i p c)
        (λ es. refl) same same)
forward_at-IsAccounted write i issued n c =
    let p = peer i c in
    let need = p.need_transfer - n in
    let offset = p.buffer_offset + n in
    let more = set_peer i (record p { need_transfer = need; buffer_offset = offset }) c in
    let sent = set_peer i (record p { need_transfer = need; state = ready }) c in
    let same = live-set_peer i (record p { need_transfer = need; buffer_offset = offset }) c in
    if-IsAccounted c (ltb 0 need)
      (issue issued (writes i (take need (drop offset p.buffer))) more more)
      (forward_ready i issued sent)
      (issue-IsAccounted issued (writes i (take need (drop offset p.buffer))) c more more
        (λ es. refl) same same)
      (forward_ready-IsAccounted i issued c sent
        (live-set_peer i (record p { need_transfer = need; state = ready }) c))
forward_at-IsAccounted initialized i issued n c = dispose-IsAccounted c
forward_at-IsAccounted shutdown i issued n c = dispose-IsAccounted c

-- The steps of a connection: for either peer, with whatever the system accepted and transferred.
pub data Steps : ForwardIoContext → List Effect → ForwardIoContext → Type 0 where
  none_yet : {c : ForwardIoContext} → Steps c [] c
  forwards :
      {c c' : ForwardIoContext} {es : List Effect} (i issued : Bool) (n : ℕ)
      → Steps (do_forward i issued n c).context es c'
      → Steps c ((do_forward i issued n c).effects ++ es) c'

removals-append : (es fs : List Effect) → removals (es ++ fs) ≡ removals es + removals fs
removals-append [] fs = omega arith
removals-append (removes_context ∷ es) fs = omega (arith, removals-append es fs)
removals-append (cancels_io ∷ es) fs = removals-append es fs
removals-append (reads i n ∷ es) fs = removals-append es fs
removals-append (writes i bs ∷ es) fs = removals-append es fs
removals-append (shuts_receive i ∷ es) fs = removals-append es fs
removals-append (shuts_send i ∷ es) fs = removals-append es fs

do_forward-IsAccounted :
    (i issued : Bool) (n : ℕ) (c : ForwardIoContext) → IsAccounted c (do_forward i issued n c)
unfolding do_forward
do_forward-IsAccounted i issued n c = forward_at-IsAccounted (peer i c).state i issued n c

-- Over any sequence of steps of the two peers, whatever the system accepts and transfers: the
-- context is removed from the manager's list at most once, exactly once if the steps take it from
-- another state to `destroyed`, and never if it was destroyed before.
pub Steps-removals :
    (c c' : ForwardIoContext) (es : List Effect) → Steps c es c' → removals es + live c' ≡ live c
Steps-removals c _ _ none_yet = omega arith
Steps-removals c c' _ (forwards {es = es} i issued n rest) =
    let s = do_forward i issued n c in
    omega (
      arith,
      removals-append s.effects es,
      do_forward-IsAccounted i issued n c,
      Steps-removals s.context c' es rest,
    )
