-- ===== src/Wsl2Helper/Stream/HangUp.antt =====
-- The order of a graceful hang-up.
use ssh_agent_bridge.Base.{◌≡◌, refl, ap, ◌∙◌, Bool, true, false, not, List, [], ◌∷◌, ◌++◌, All}
use ssh_agent_bridge.Wire.{Bytes}
use ssh_agent_bridge.Wsl2Helper.Stream.{
  SendResult, Ending, ends, waits_to_send, waits, send_buffer, Receipt, no_receipt, receipt, Effect,
  received, sent, shuts_read, shuts_write, Trace, before, pass_on, drain, gracefully_hup,
}

-- Only bytes from `i` to the other one move.
abbrev pub IsFlow : Bool → Effect → Type 0
IsFlow i (received j bs) = i ≡ j
IsFlow i (sent j bs) = not i ≡ j
IsFlow i _ = ⊥

-- The trace moves bytes from `i`, and is then `k`, which ended well.
record Flows (i : Bool) (t k : Trace) : Type 0 where
  flow : List Effect
  only : All (IsFlow i) flow
  effects_are : t.effects ≡ flow ++ k.effects
  ended : k.ending ≡ ends true

pass_on-Flows :
    (i : Bool) (bs : Bytes) (script : List SendResult) (t k : Trace)
    → ((t.ending ≡ ends true) → Flows i t k)
    → (pass_on i bs script t).ending ≡ ends true
    → Flows i (pass_on i bs script t) k
unfolding pass_on
pass_on-Flows i bs script t k rest = of_ending (send_buffer script bs).ending refl
  where
    of_ending :
        (e : Ending)
        → (send_buffer script bs).ending ≡ e
        → (pass_on i bs script t).ending ≡ ends true
        → Flows i (pass_on i bs script t) k
    of_ending (ends true) eq = rw eq (λ done.
        let f = rest done in
        record {
          flow = received i bs ∷ sent (not i) (send_buffer script bs).wire ∷ f.flow;
          only = (refl, (refl, f.only));
          effects_are =
              ap (λ es. received i bs ∷ sent (not i) (send_buffer script bs).wire ∷ es)
                f.effects_are;
          ended = f.ended;
        })
    of_ending (ends false) eq = rw eq (λ done. cc)
    of_ending waits_to_send eq = rw eq (λ done. cc)
    of_ending waits eq = rw eq (λ done. cc)

drain-Flows :
    (i : Bool) (rs : List Receipt) (k : Trace)
    → (drain i rs k).ending ≡ ends true
    → Flows i (drain i rs k) k
unfolding drain
drain-Flows i [] k done = cc
drain-Flows i (no_receipt ∷ rs) k done = record {
  flow = [];
  only = tt;
  effects_are = refl;
  ended = done;
}
drain-Flows i (receipt [] script ∷ rs) k done = record {
  flow = [];
  only = tt;
  effects_are = refl;
  ended = done;
}
drain-Flows i (receipt (b ∷ bs) script ∷ rs) k done =
    pass_on-Flows i (b ∷ bs) script (drain i rs k) k (λ d. drain-Flows i rs k d) done

-- What a hang-up that ran to its end did: `mine` moved, then both ends of that direction were shut,
-- then `others` moved the other way, and then both ends of that direction were shut.
pub record HungUp (i : Bool) (t : Trace) : Type 0 where
  pub mine : List Effect
  pub others : List Effect
  pub only_mine : All (IsFlow i) mine
  pub only_others : All (IsFlow (not i)) others
  pub effects_are :
      t.effects
      ≡ mine
        ++ shuts_read i ∷ shuts_write (not i) ∷ (others ++ shuts_read (not i) ∷ shuts_write i ∷ [])

-- A graceful hang-up that runs to its end passes on what is left from the socket that hung up, shuts
-- that direction, passes on what the other one still sends, and only then shuts the other direction:
-- nothing moves in a direction that was shut.
pub gracefully_hup-HungUp :
    (i : Bool) (mine others : List Receipt)
    → (gracefully_hup i mine others).ending ≡ ends true
    → HungUp i (gracefully_hup i mine others)
unfolding gracefully_hup
gracefully_hup-HungUp i mine others done =
    let last : Trace = record {
      effects = shuts_read (not i) ∷ shuts_write i ∷ [];
      ending = ends true;
    } in
    let k = before (shuts_read i ∷ shuts_write (not i) ∷ []) (drain (not i) others last) in
    let f = drain-Flows i mine k done in
    let g = drain-Flows (not i) others last f.ended in
    record {
      mine = f.flow;
      others = g.flow;
      only_mine = f.only;
      only_others = g.only;
      effects_are =
          f.effects_are
          ∙ ap (λ es. f.flow ++ shuts_read i ∷ shuts_write (not i) ∷ es) g.effects_are;
    }
