-- ===== src/Wsl2Helper/Options/Checks.antt =====
-- What holds where `main` goes on.
use ssh_agent_bridge.Base.{
  ◌≡◌, refl, inl, inr, Bool, true, false, not, ◌&&◌, List, [], ◌∷◌, Option, none, some,
  if◌then◌else◌, Bool-cases,
}
use ssh_agent_bridge.Util.{wide}
use ssh_agent_bridge.Wsl2Helper.Options.{
  Text, Options, defaults, parse_command_line, is_empty, Start, exits, starts, get_temp_filename,
  check_address, set_address, set_local, prepare, main_until_fork,
}

-- `main` stops with status 1, or goes on with globals that satisfy `P`.
abbrev pub OnStart : (Options → Type 0) → Start → Type 0
OnStart P (exits code) = code ≡ 1
OnStart P (starts o) = P o

if-OnStart :
    (P : Options → Type 0) (b : Bool) (s t : Start)
    → (b ≡ true → OnStart P s)
    → (b ≡ false → OnStart P t)
    → OnStart P (if b then s else t)
if-OnStart P true s t h k = h refl
if-OnStart P false s t h k = k refl

and_not : (a b : Bool) → (a && not b) ≡ false → a ≡ true → b ≡ true
and_not true true e h = refl
and_not true false e h = cc
and_not false b e h = cc

and_false : (a b : Bool) → (a && b) ≡ false → a ≡ true → b ≡ false
and_false true b e h = e
and_false false b e h = cc

-- What is checked before the names are completed.
record IsChecked (o : Options) : Type 0 where
  remote : is_empty o.remote_socket_path ≡ false
  background : o.refcount_flag ≡ true → o.background_running ≡ true
  pid_file : o.refcount_flag ≡ true → is_empty o.pid_file_path ≡ false

module _ (tmpnam : Option Text) (gateway : Text) (is_address : Text → Bool) where
  -- The globals that the rest of `main` relies on.
  pub record IsReady (o : Options) : Type 0 where
    pub has_remote : is_empty o.remote_socket_path ≡ false
    pub has_local : is_empty o.local_socket_path ≡ false
    pub has_address : is_address o.remote_address ≡ true
    pub counts_in_background : o.refcount_flag ≡ true → o.background_running ≡ true
    pub counts_with_file : o.refcount_flag ≡ true → is_empty o.pid_file_path ≡ false

  check_address-IsReady :
      (o : Options)
      → IsChecked o
      → is_empty o.local_socket_path ≡ false
      → OnStart IsReady (check_address tmpnam gateway is_address o)
  unfolding check_address
  check_address-IsReady o c l =
      if-OnStart IsReady (is_address o.remote_address) _ _
        (λ a. record {
          has_remote = c.remote;
          has_local = l;
          has_address = a;
          counts_in_background = c.background;
          counts_with_file = c.pid_file;
        })
        (λ a. refl)

  set_address-IsReady :
      (o : Options)
      → IsChecked o
      → is_empty o.local_socket_path ≡ false
      → OnStart IsReady (set_address tmpnam gateway is_address o)
  unfolding set_address
  set_address-IsReady o c l = elim (Bool-cases (is_empty o.remote_address)) [
    | inl none_given ↦ rw none_given (
        check_address-IsReady
          (record o { remote_address = if is_empty gateway then wide "127.0.0.1" else gateway })
          (record { remote = c.remote; background = c.background; pid_file = c.pid_file }) l)
    | inr given ↦ rw given (check_address-IsReady o c l)
  ]

  set_local-IsReady :
      (o : Options) → IsChecked o → OnStart IsReady (set_local tmpnam gateway is_address o)
  unfolding set_local
  set_local-IsReady o c =
      if-OnStart IsReady (is_empty o.local_socket_path) _ _
        (λ l.
          if-OnStart IsReady (is_empty (get_temp_filename tmpnam gateway is_address)) (exits 1)
            (set_address tmpnam gateway is_address
              (record o { local_socket_path = get_temp_filename tmpnam gateway is_address }))
            (λ none_made. refl)
            (λ made.
              set_address-IsReady
                (record o { local_socket_path = get_temp_filename tmpnam gateway is_address })
                (record { remote = c.remote; background = c.background; pid_file = c.pid_file })
                made))
        (λ l. set_address-IsReady o c l)

  prepare-IsReady : (o : Options) → OnStart IsReady (prepare tmpnam gateway is_address o)
  unfolding prepare
  prepare-IsReady o =
      if-OnStart IsReady (is_empty o.remote_socket_path) _ _ (λ e. refl)
        λ r.
          if-OnStart IsReady (o.refcount_flag && not o.background_running) _ _ (λ e. refl)
            λ b.
              if-OnStart IsReady (o.refcount_flag && is_empty o.pid_file_path) _ _ (λ e. refl)
                λ p. set_local-IsReady o (record {
                  remote = r;
                  background = and_not o.refcount_flag o.background_running b;
                  pid_file = and_false o.refcount_flag (is_empty o.pid_file_path) p;
                })

  -- Whatever the arguments, the helper exits with status 1 before it forks, or goes on with a remote
  -- and a local path, a valid address, and, if it counts references, in the background and with a
  -- file for its process.
  pub main_until_fork-IsReady :
      (args : List Text) → OnStart IsReady (main_until_fork tmpnam gateway is_address args)
  unfolding main_until_fork
  main_until_fork-IsReady [] = refl
  main_until_fork-IsReady (arg ∷ args) = of_parsed (parse_command_line (arg ∷ args) defaults) refl
    where
      of_parsed :
          (m : Option Options)
          → parse_command_line (arg ∷ args) defaults ≡ m
          → OnStart IsReady (main_until_fork tmpnam gateway is_address (arg ∷ args))
      of_parsed none e = rw (e, main_until_fork) refl
      of_parsed (some o) e = rw (e, main_until_fork) (prepare-IsReady o)
