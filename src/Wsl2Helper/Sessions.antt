-- ===== src/Wsl2Helper/Sessions.antt =====
-- The counting of sessions in wsl2_helper/main.cpp: with `-c`, each start of the helper is a session. The first
-- one becomes the main process; a later one finds it by the pid file, raises SIGUSR1 in it, waits for
-- its own parent to end, and raises SIGUSR2. A signal that is pending already is not queued.
pub mod Counting
mod Tests
use ssh_agent_bridge.Base.{ℕ, ◌+◌, ◌-◌, Bool, true, false, List, [], ◌∷◌, ◌==◌, if◌then◌else◌}

-- The main process: `refcount`, whether SIGUSR1 and SIGUSR2 are pending, and whether it still runs;
-- with the number of sessions that run.
pub record Main : Type 0 where
  pub refcount : ℕ
  pub adds_pending : Bool
  pub release_pending : Bool
  pub is_running : Bool
  pub sessions : ℕ

-- A session starts, with `kill(pid, SIGUSR1)`; a session ends, with `kill(pid, SIGUSR2)`, or with
-- `raise(SIGUSR2)` for that of the main process; the handlers run.
pub data Event : Type 0 where
  starts ends handles_add handles_release : Event

-- The first session writes its pid to the file.
abbrev pub first_session : Main
first_session = record {
  refcount = 1;
  adds_pending = false;
  release_pending = false;
  is_running = true;
  sessions = 1;
}

-- `AddRefHandler`, if the signal is pending.
unfoldable pub add_ref_handler : Main → Main
add_ref_handler m =
    if m.adds_pending then record m { refcount = m.refcount + 1; adds_pending = false } else m

-- `ReleaseHandler`, if the signal is pending.
unfoldable pub release_handler : Main → Main
release_handler m =
    if m.release_pending
    then record m {
      refcount = m.refcount - 1;
      release_pending = false;
      is_running = if m.refcount - 1 == 0 then false else m.is_running;
    }
    else m

-- A step of the main process while it runs.
unfoldable pub run_step : Event → Main → Main
unfolding add_ref_handler release_handler
run_step starts m = record m { adds_pending = true; sessions = m.sessions + 1 }
run_step ends m = record m { release_pending = true; sessions = m.sessions - 1 }
run_step handles_add m = add_ref_handler m
run_step handles_release m = release_handler m

unfoldable pub step : Event → Main → Main
unfolding run_step
step e m = if m.is_running then run_step e m else m
