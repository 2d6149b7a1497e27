-- ===== src/Listening/Following.antt =====
-- The Hyper-V listener follows the machine.
use ssh_agent_bridge.Base.{
  ℕ, ◌≡◌, refl, subst, Bool, true, false, not, ◌||◌, ◌&&◌, List, [], ◌∷◌, none, some, if_lem, ==→eq,
  ◌==◌,
}
use ssh_agent_bridge.Listening.{
  NetworkEvents, enumeration_fails, has_closed, has_accept, has_none, Wait, cancelled, wait_fails,
  network, notified, waits, stops, handle_network, Binding, Followed, stays, bind_to, rebind,
  hyper_v_network, hyper_v_loop, start_hyper_v,
}
use ssh_agent_bridge.Listening.Settled.{AllSettled, handle_network-IsSettled}

-- A socket listens for the machine, or there is none.
pub record IsBound (b : Binding) : Type 0 where
  pub good : b.socket_good ≡ true → b.socket ≡ some b.vmid
  pub bad : b.socket_good ≡ false → b.socket ≡ none

-- The machine that was notified last.
abbrev pub last_machine : List Wait → ℕ → ℕ
last_machine [] vmid = vmid
last_machine (notified new built selected ∷ ws) vmid = last_machine ws new
last_machine (_ ∷ ws) vmid = last_machine ws vmid

pub record Follows (vmid : ℕ) (f : Followed) : Type 0 where
  pub settled : AllSettled f.listened
  pub is_last : f.listened.ending ≡ waits → f.binding.vmid ≡ vmid
  pub is_bound : f.listened.ending ≡ waits → IsBound f.binding

-- A loop that has ended follows nothing.
stops-Follows : (r : Bool) (vmid : ℕ) (b : Binding) → Follows vmid (stays (stops r) b)
stops-Follows r vmid b = record { settled = tt; is_last = λ e. cc; is_bound = λ e. cc }

bind_to-IsBound : (vmid : ℕ) (built : Bool) → IsBound (bind_to vmid built)
unfolding bind_to
bind_to-IsBound vmid true = record { good = λ e. refl; bad = λ e. cc }
bind_to-IsBound vmid false = record { good = λ e. cc; bad = λ e. refl }

bind_to-vmid : (vmid : ℕ) (built : Bool) → (bind_to vmid built).vmid ≡ vmid
unfolding bind_to
bind_to-vmid vmid built = refl

rebind-Follows :
    (new last : ℕ) (built selected : Bool) (b : Binding) (k : Binding → Followed)
    → ((b' : Binding) → IsBound b' → b'.vmid ≡ new → Follows last (k b'))
    → IsBound b
    → Follows last (rebind new built selected b k)
unfolding rebind
rebind-Follows new last built selected b k h bound =
    if_lem (Follows last) (not (b.vmid == new) || not b.socket_good) _ _
      (λ changed.
        if_lem (Follows last) (built && not selected) _ _ (λ e. stops-Follows false last _)
          (λ e. h (bind_to new built) (bind_to-IsBound new built) (bind_to-vmid new built)))
      (λ kept. h b bound (==→eq b.vmid new (same_machine (b.vmid == new) b.socket_good kept)))
  where
    same_machine : (x y : Bool) → (not x || not y) ≡ false → x ≡ true
    same_machine true y e = refl
    same_machine false y e = cc

network-Follows :
    (n : NetworkEvents) (last : ℕ) (b : Binding) (k : Followed)
    → Follows last k
    → Follows last (hyper_v_network n b k)
unfolding hyper_v_network handle_network
network-Follows enumeration_fails last b k h = stops-Follows false last b
network-Follows has_closed last b k h = stops-Follows false last b
network-Follows has_none last b k h = h
network-Follows (has_accept a) last b k h = record {
  settled = handle_network-IsSettled (has_accept a) k.listened h.settled;
  is_last = λ e. h.is_last e;
  is_bound = λ e. h.is_bound e;
}

hyper_v_loop-Follows :
    (ws : List Wait) (b : Binding)
    → IsBound b
    → Follows (last_machine ws b.vmid) (hyper_v_loop ws b)
unfolding hyper_v_loop
hyper_v_loop-Follows [] b h = record { settled = tt; is_last = λ e. refl; is_bound = λ e. h }
hyper_v_loop-Follows (cancelled ∷ ws) b h = stops-Follows true _ b
hyper_v_loop-Follows (wait_fails ∷ ws) b h = stops-Follows false _ b
hyper_v_loop-Follows (network n ∷ ws) b h =
    network-Follows n _ b (hyper_v_loop ws b) (hyper_v_loop-Follows ws b h)
hyper_v_loop-Follows (notified new built selected ∷ ws) b h =
    rebind-Follows new (last_machine ws new) built selected b (hyper_v_loop ws)
      (λ b' bound e.
        subst (λ v. Follows (last_machine ws v) (hyper_v_loop ws b')) e
          (hyper_v_loop-Follows ws b' bound))
      h

-- From its start on, and over whatever its waits return: as long as the Hyper-V listener runs, it is at
-- the machine that was notified last, and either its socket listens for this machine, or it has no
-- socket. Each connection that it accepts is handed over or closed before the next one.
pub start_hyper_v-Follows :
    (wsl2 : Bool) (vmid : ℕ) (built selected : Bool) (ws : List Wait)
    → Follows (last_machine ws vmid) (start_hyper_v wsl2 vmid built selected ws)
unfolding start_hyper_v
start_hyper_v-Follows wsl2 vmid built selected ws =
    let b = bind_to vmid ((not (vmid == 0) || not wsl2) && built) in
    let run =
      hyper_v_loop-Follows ws b (bind_to-IsBound vmid ((not (vmid == 0) || not wsl2) && built)) in
    let follows : Follows (last_machine ws vmid) (hyper_v_loop ws b) =
      rw (bind_to-vmid vmid ((not (vmid == 0) || not wsl2) && built)) at run in
    if_lem (Follows (last_machine ws vmid)) b.socket_good _ _
      (λ g.
        if_lem (Follows (last_machine ws vmid)) selected _ _ (λ s. follows)
          (λ s. stops-Follows false _ b))
      (λ g.
        if_lem (Follows (last_machine ws vmid)) wsl2 _ _ (λ w. follows)
          (λ w. stops-Follows false _ b))
