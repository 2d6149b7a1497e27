-- ===== src/Wsl2Helper/Sessions/Tests.antt =====
-- A second session, and the witness.
use ssh_agent_bridge.Base.{◌≡◌, refl, false}
use ssh_agent_bridge.Wsl2Helper.Sessions.{
  Main, starts, ends, handles_add, handles_release, first_session, step, run_step, add_ref_handler,
  release_handler,
}
use ssh_agent_bridge.Wsl2Helper.Sessions.Counting.{
  Paced, from_first, and_then, IsCounted, Paced-IsCounted,
}

abbrev two_sessions : Main
two_sessions = step handles_add (step starts first_session)

two_sessions-Paced : Paced two_sessions
two_sessions-Paced = and_then handles_add (and_then starts from_first refl) tt

Paced-IsCounted_example : IsCounted two_sessions
Paced-IsCounted_example = Paced-IsCounted two_sessions two_sessions-Paced

-- Two sessions that start before the first signal is handled are counted once: with three sessions, the
-- process exits when the second one of them ends.
lost_signal :
    (step handles_release (
      step ends (
        step handles_release
          (step ends (step handles_add (step starts (step starts first_session)))))))
    ≡ record {
      refcount = 0;
      adds_pending = false;
      release_pending = false;
      is_running = false;
      sessions = 1;
    }
unfolding step run_step add_ref_handler release_handler
lost_signal = refl
