-- ===== src/Application/Sections.antt =====
-- What a successful set-up has made of the sections.
use ssh_agent_bridge.Base.{
  ℕ, ◌+◌, ◌<◌, ◌≡◌, refl, sym, ap, ◌∙◌, subst, Bool, true, false, not, ◌&&◌, ◌||◌, List, [], ◌∷◌,
  ◌++◌, append_assoc, append-nil, length, Option, none, some, if◌then◌else◌, Bool-cases, inl, inr,
  arith,
}
use ssh_agent_bridge.Base.Faults.{◌>>=◌}
use ssh_agent_bridge.Util.{WideString, wide}
use ssh_agent_bridge.CommandLine.{LogLevel, debug, info, warning, error, invalid, level_of}
use ssh_agent_bridge.Ini.{IniSection, IniFile, get_property_string}
use ssh_agent_bridge.Base.{equal, equal→eq}
use ssh_agent_bridge.Application.Setup.{Stoi}
use ssh_agent_bridge.Application.{
  TypeAction, Application, configure_role, configure_type, set_level, set_mangling,
  configure_general, configure_section, configure, initialize, action_list, named_pipe_action,
  pageant_action, assuan_emu_action, unix_action, hyper_v_action, cygwin_action,
}
use ssh_agent_bridge.Application.Adds.{
  has_role, of_role, client_names, Adds, OnSome, bind-OnSome, mono-OnSome, if-OnSome, some-OnSome,
  Adds-nothing, listeners_of, clients_of, role-Adds,
}

module _ (towlower : ℕ → ℕ) (stoi : WideString → Stoi)
    (expand : WideString → Option WideString) where
  -- The loop over `actionList` finds one entry at most.
  type-Adds :
      (name : WideString) (section : IniSection) (type role : WideString) (a : Application)
      → OnSome
          (λ a'. Adds a a' (listeners_of role) (clients_of role name))
          (configure_type towlower stoi expand
            (action_list towlower stoi expand)
            name
            section
            type
            role
            false
            a)
  unfolding configure_type equal
  type-Adds name section type role a =
      known (wide "namedpipe") (at (named_pipe_action towlower stoi expand) (wide "namedpipe"))
        λ e1.
          known (wide "pageant") (at (pageant_action towlower stoi expand) (wide "pageant")) λ e2.
            known (wide "assuan_emu")
              (at (assuan_emu_action towlower stoi expand) (wide "assuan_emu"))
              λ e3. known (wide "unix") (at (unix_action towlower stoi expand) (wide "unix")) λ e4.
                known (wide "hyperv") (at (hyper_v_action towlower stoi expand) (wide "hyperv"))
                  λ e5.
                    known (wide "cygwin") (at (cygwin_action towlower stoi expand) (wide "cygwin"))
                      λ e6. rw (e1, e2, e3, e4, e5, e6) tt
    where
      P : Application → Type 0
      P a' = Adds a a' (listeners_of role) (clients_of role name)

      Goal : WideString → Type 0
      Goal t = OnSome P (
          configure_type towlower stoi expand (action_list towlower stoi expand) name section t role
            false a)

      at :
          (act : TypeAction) (t : WideString)
          → OnSome P (configure_role towlower stoi expand act name section t role a >>= λ x. some x)
      at act t =
          some-OnSome P (configure_role towlower stoi expand act name section t role a)
            (role-Adds towlower stoi expand act name section t role a)

      known : (t : WideString) → Goal t → (equal type t ≡ false → Goal type) → Goal type
      known t found otherwise = elim (Bool-cases (equal type t)) [
        | inl e ↦ subst (λ x. Goal x) (sym (equal→eq type t e)) found
        | inr e ↦ otherwise e
      ]

  level-Adds :
      (text : WideString × Bool) (a : Application)
      → OnSome (λ a'. Adds a a' 0 []) (set_level towlower stoi expand text a)
  unfolding set_level
  level-Adds (text, false) a = Adds-nothing a
  level-Adds (text, true) a = of_level (level_of towlower text) refl
    where
      same : (l : LogLevel) → Adds a (record a { log_level = l }) 0 []
      same l = record {
        listeners_are = omega arith;
        clients_are = sym (append-nil (client_names a));
        flag = λ h. h;
      }

      of_level :
          (l : LogLevel)
          → level_of towlower text ≡ l
          → OnSome (λ a'. Adds a a' 0 []) (set_level towlower stoi expand (text, true) a)
      of_level invalid e = rw e tt
      of_level debug e = rw e (same debug)
      of_level info e = rw e (same info)
      of_level warning e = rw e (same warning)
      of_level error e = rw e (same error)

  mangling-Adds :
      (flag : Bool × Bool) (a a' : Application)
      → Adds a a' 0 []
      → Adds a (set_mangling flag a') 0 []
  unfolding set_mangling
  mangling-Adds (flag, false) a a' h = h
  mangling-Adds (flag, true) a a' h = record {
    listeners_are = h.listeners_are;
    clients_are = h.clients_are;
    flag = h.flag;
  }

  abbrev AddsSection : WideString → IniSection → Application → Application → Type 0
  AddsSection name section a a' =
      Adds a a' (if has_role (wide "listener") name section then 1 else 0)
        (if has_role (wide "client") name section then name ∷ [] else [])

  section-Adds :
      (name : WideString) (section : IniSection) (a : Application)
      → OnSome (AddsSection name section a) (configure_section towlower stoi expand name section a)
  unfolding configure_section configure_general
  section-Adds name section a = elim (Bool-cases (equal name (wide "general"))) [
    | inl e ↦ subst (λ b. Goal b) (sym e) general
    | inr e ↦ subst (λ b. Goal b) (sym e) other
  ]
    where
      role : WideString
      role = (get_property_string section (wide "role")).0

      Goal : Bool → Type 0
      Goal b =
          OnSome
            (λ a'.
              Adds a a' (if not b && equal role (wide "listener") then 1 else 0)
                (if not b && equal role (wide "client") then name ∷ [] else []))
            (if b
              then configure_general towlower stoi expand section a
              else if not (get_property_string section (wide "type")).1
                  || not (get_property_string section (wide "role")).1
              then none
              else configure_type towlower stoi expand (action_list towlower stoi expand) name
                  section (get_property_string section (wide "type")).0 role false a)

      general : Goal true
      general =
          bind-OnSome (λ a'. Adds a a' 0 []) (λ a'. Adds a a' 0 [])
            (set_level towlower stoi expand (get_property_string section (wide "loglevel")) a) _
            (level-Adds _ a) (λ a' h. mangling-Adds _ a a' h)

      other : Goal false
      other =
          if-OnSome (λ a'. Adds a a' (listeners_of role) (clients_of role name))
            (not (get_property_string section (wide "type")).1
              || not (get_property_string section (wide "role")).1)
            none
            (configure_type towlower stoi expand (action_list towlower stoi expand) name section
              (get_property_string section (wide "type")).0 role false a)
            (λ missing. tt) (λ there. type-Adds name section _ role a)

  configure-Adds :
      (config : IniFile) (a : Application)
      → OnSome
          (λ a'.
            Adds a a' (length (of_role (wide "listener") config)) (of_role (wide "client") config))
          (configure towlower stoi expand config a)
  unfolding configure
  configure-Adds [] a = Adds-nothing a
  configure-Adds ((name, section) ∷ config) a =
      bind-OnSome (AddsSection name section a) _
        (configure_section towlower stoi expand name section a) _ (section-Adds name section a)
        λ a' first.
          mono-OnSome _ _ (configure towlower stoi expand config a')
            (λ a'' rest. both a' a'' first rest) (configure-Adds config a')
    where
      both :
          (a' a'' : Application)
          → AddsSection name section a a'
          → Adds a' a'' (length (of_role (wide "listener") config)) (of_role (wide "client") config)
          → Adds a a''
              (length (of_role (wide "listener") ((name, section) ∷ config)))
              (of_role (wide "client") ((name, section) ∷ config))
      both a' a'' f r = record {
        listeners_are =
            counts (has_role (wide "listener") name section) f.listeners_are r.listeners_are;
        clients_are = names (has_role (wide "client") name section) f.clients_are r.clients_are;
        flag = λ h. r.flag (f.flag h);
      }
        where
          ls : List WideString
          ls = of_role (wide "listener") config

          cs : List WideString
          cs = of_role (wide "client") config

          counts :
              (b : Bool)
              → length a'.listeners ≡ length a.listeners + (if b then 1 else 0)
              → length a''.listeners ≡ length a'.listeners + length ls
              → length a''.listeners ≡ length a.listeners + length (if b then name ∷ ls else ls)
          counts true h k = omega arith
          counts false h k = omega arith

          names :
              (b : Bool)
              → client_names a' ≡ client_names a ++ (if b then name ∷ [] else [])
              → client_names a'' ≡ client_names a' ++ cs
              → client_names a'' ≡ client_names a ++ (if b then name ∷ cs else cs)
          names true h k = k ∙ ap (λ x. x ++ cs) h ∙ append_assoc (client_names a) (name ∷ []) cs
          names false h k = k ∙ ap (λ x. x ++ cs) (h ∙ append-nil (client_names a))

  -- A set-up that succeeds has made one client for each section of the role `client` (but for the
  -- section `general`), in the order of the sections and under their names, as many listeners as
  -- there are sections of the role `listener`, and at least one client.
  pub initialize-client_names :
      (config : IniFile) (level : LogLevel) (a : Application)
      → initialize towlower stoi expand config level ≡ some a
      → (client_names a ≡ of_role (wide "client") config)
        × (length a.listeners ≡ length (of_role (wide "listener") config))
        × (0 < length a.clients)
  unfolding initialize
  initialize-client_names config level a e =
      subst (λ m. OnSome P m) e
        (bind-OnSome
          (λ a'.
            Adds new a' (length (of_role (wide "listener") config))
              (of_role (wide "client") config))
          P (configure towlower stoi expand config new) _ (configure-Adds config new)
          λ a' all.
            if-OnSome P a'.client_set_flag (some a') none
              (λ is_set.
                (all.clients_are, omega (arith, all.listeners_are), all.flag (λ x. cc) is_set))
              (λ no_client. tt))
    where
      new : Application
      new = record {
        listeners = [];
        targets = [];
        clients = [];
        log_level = level;
        mangle_comment_flag = true;
        client_set_flag = false;
      }

      P : Application → Type 0
      P b =
          (client_names b ≡ of_role (wide "client") config)
          × (length b.listeners ≡ length (of_role (wide "listener") config))
          × (0 < length b.clients)
