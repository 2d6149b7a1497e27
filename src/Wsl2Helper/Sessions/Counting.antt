-- ===== src/Wsl2Helper/Sessions/Counting.antt =====
-- The count is that of the sessions, as long as no signal is lost.
use ssh_agent_bridge.Base.{ℕ, ◌+◌, ◌<◌, ◌≡◌, refl, subst, Bool, true, false, if_lem, arith}
use ssh_agent_bridge.Wsl2Helper.Sessions.{
  Main, Event, starts, ends, handles_add, handles_release, first_session, add_ref_handler,
  release_handler, run_step, step,
}

abbrev pub one_if : Bool → ℕ
one_if true = 1
one_if false = 0

-- A session starts or ends only when the signal for the one before was handled, and one that ends was
-- running.
abbrev pub IsPaced : Event → Main → Type 0
IsPaced starts m = m.adds_pending ≡ false
IsPaced ends m = (m.release_pending ≡ false) × (0 < m.sessions)
IsPaced _ m = Unit

-- Any such events, from the first session on.
pub data Paced : Main → Type 0 where
  from_first : Paced first_session
  and_then : {m : Main} (e : Event) → Paced m → IsPaced e m → Paced (step e m)

-- The references are the sessions, up to the signals that are pending; and they are all gone if
-- the process has exited.
pub record IsCounted (m : Main) : Type 0 where
  pub counted : m.refcount + one_if m.adds_pending ≡ m.sessions + one_if m.release_pending
  pub exited : m.is_running ≡ false → m.refcount ≡ 0
  pub some_left : m.is_running ≡ true → 0 < m.refcount

run_step-IsCounted :
    (e : Event) (m : Main)
    → m.is_running ≡ true
    → IsPaced e m
    → IsCounted m
    → IsCounted (run_step e m)
unfolding run_step add_ref_handler release_handler
run_step-IsCounted starts m running paced c =
    let before : m.refcount + 0 ≡ m.sessions + one_if m.release_pending =
      subst (λ b. m.refcount + one_if b ≡ m.sessions + one_if m.release_pending) paced c.counted in
    record { counted = omega (arith, before); exited = c.exited; some_left = c.some_left }
run_step-IsCounted ends m running paced c =
    let before : m.refcount + one_if m.adds_pending ≡ m.sessions + 0 =
      subst (λ b. m.refcount + one_if m.adds_pending ≡ m.sessions + one_if b) paced.0 c.counted in
    record { counted = omega (arith, before, paced.1); exited = c.exited; some_left = c.some_left }
run_step-IsCounted handles_add m running paced c =
    if_lem IsCounted m.adds_pending _ _
      (λ e.
        let before : m.refcount + 1 ≡ m.sessions + one_if m.release_pending =
          subst (λ b. m.refcount + one_if b ≡ m.sessions + one_if m.release_pending) e c.counted in
        record { counted = omega (arith, before); exited = λ x. cc; some_left = λ x. omega arith })
      (λ e. c)
run_step-IsCounted handles_release m running paced c =
    if_lem IsCounted m.release_pending _ _
      (λ e.
        let before : m.refcount + one_if m.adds_pending ≡ m.sessions + 1 =
          subst (λ b. m.refcount + one_if m.adds_pending ≡ m.sessions + one_if b) e c.counted in
        record {
          counted = omega (arith, before, c.some_left running);
          exited = λ x. ground (arith, x, running);
          some_left = λ x. ground (arith, x);
        })
      (λ e. c)

step-IsCounted : (e : Event) (m : Main) → IsPaced e m → IsCounted m → IsCounted (step e m)
unfolding step
step-IsCounted e m paced c =
    if_lem IsCounted m.is_running _ _ (λ r. run_step-IsCounted e m r paced c) (λ r. c)

-- As long as no session starts or ends while the signal of the one before is still pending, the count
-- and the pending signals of new sessions are the sessions and the pending signals of ended ones; the
-- process runs just as long as the count is not 0.
pub Paced-IsCounted : (m : Main) → Paced m → IsCounted m
Paced-IsCounted _ from_first = record {
  counted = refl;
  exited = λ e. cc;
  some_left = λ e. omega arith;
}
Paced-IsCounted _ (and_then {m} e h paced) = step-IsCounted e m paced (Paced-IsCounted m h)
