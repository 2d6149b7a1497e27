-- ===== src/Application/Adds.antt =====
-- What one section's set-up adds to the listeners and clients.
use ssh_agent_bridge.Base.{
  ℕ, ◌+◌, ◌<◌, ◌≡◌, refl, sym, subst, Bool, true, false, not, ◌&&◌, List, [], ◌∷◌, ◌++◌, append-nil,
  map, length, length-append, map-append, Option, none, some, if◌then◌else◌, Bool-cases, inl, inr,
  arith,
}
use ssh_agent_bridge.Base.Faults.{◌>>=◌}
use ssh_agent_bridge.Util.{WideString, wide}
use ssh_agent_bridge.Ini.{IniSection, IniFile, get_property_string}
use ssh_agent_bridge.Base.{equal, equal→eq}
use ssh_agent_bridge.Application.Setup.{
  replace_environment_variables, Stoi, Manager, proxy, gpg, Listener, Client,
}
use ssh_agent_bridge.Application.{
  TypeAction, Application, add_listener, set_target, make_listener, configure_listener, add_client,
  configure_client, make_client, configure_role, is_forward_enabled, forward_enabled_list,
}

-- The sections of a role, by name: all but `general`, with this value of the property `role`.
abbrev pub has_role : WideString → WideString → IniSection → Bool
has_role role name section =
    not (equal name (wide "general")) && equal (get_property_string section (wide "role")).0 role

abbrev pub of_role : WideString → IniFile → List WideString
of_role role [] = []
of_role role ((name, section) ∷ config) =
    let rest = of_role role config in if has_role role name section then name ∷ rest else rest

abbrev pub client_names : Application → List WideString
client_names a = map (λ c. c.name) a.clients

-- What one section adds: `l` listeners and the clients `cs`; if a client was set there is one.
pub record Adds (a a' : Application) (l : ℕ) (cs : List WideString) : Type 0 where
  pub listeners_are : length a'.listeners ≡ length a.listeners + l
  pub clients_are : client_names a' ≡ client_names a ++ cs
  pub flag :
      (a.client_set_flag ≡ true → 0 < length a.clients)
      → a'.client_set_flag ≡ true
      → 0 < length a'.clients

-- If there is a result, it satisfies `P`.
abbrev pub OnSome {ℓ} : {A : Type ℓ} → (A → Type 0) → Option A → Type 0
OnSome P none = Unit
OnSome P (some x) = P x

pub bind-OnSome :
    {A B : Type 0} (Q : A → Type 0) (P : B → Type 0) (m : Option A) (f : A → Option B)
    → OnSome Q m
    → ((x : A) → Q x → OnSome P (f x))
    → OnSome P (m >>= f)
bind-OnSome Q P none f q h = tt
bind-OnSome Q P (some x) f q h = h x q

pub mono-OnSome :
    {A : Type 0} (Q P : A → Type 0) (m : Option A) → ((x : A) → Q x → P x) → OnSome Q m → OnSome P m
mono-OnSome Q P none f q = tt
mono-OnSome Q P (some x) f q = f x q

pub if-OnSome :
    {A : Type 0} (P : A → Type 0) (b : Bool) (x y : Option A)
    → (b ≡ true → OnSome P x)
    → (b ≡ false → OnSome P y)
    → OnSome P (if b then x else y)
if-OnSome P true x y h k = h refl
if-OnSome P false x y h k = k refl

pub some-OnSome :
    {A : Type 0} (P : A → Type 0) (m : Option A) → OnSome P m → OnSome P (m >>= λ x. some x)
some-OnSome P none h = h
some-OnSome P (some x) h = h

pub Adds-nothing : (a : Application) → Adds a a 0 []
Adds-nothing a = record {
  listeners_are = omega arith;
  clients_are = sym (append-nil (client_names a));
  flag = λ h. h;
}

add_listener-Adds :
    (p : Option Listener) (a : Application) → OnSome (λ a'. Adds a a' 1 []) (add_listener p a)
unfolding add_listener
add_listener-Adds none a = tt
add_listener-Adds (some l) a = record {
  listeners_are = length-append a.listeners (l ∷ []);
  clients_are = sym (append-nil (client_names a));
  flag = λ h. h;
}

with_target-Adds :
    (p : Option Listener) (target : WideString) (a : Application)
    → OnSome (λ a'. Adds a a' 1 []) (add_listener p (set_target p target a))
unfolding add_listener set_target
with_target-Adds none target a = tt
with_target-Adds (some l) target a = record {
  listeners_are = length-append a.listeners (l ∷ []);
  clients_are = sym (append-nil (client_names a));
  flag = λ h. h;
}

add_client-Adds :
    (p : Option Client) (name : WideString) (a : Application)
    → OnSome (λ a'. Adds a a' 0 (name ∷ [])) (add_client p name a)
unfolding add_client
add_client-Adds none name a = tt
add_client-Adds (some c) name a = record {
  listeners_are = omega arith;
  clients_are = map-append (λ n. n.name) a.clients (record { name = name; client = c } ∷ []);
  flag = λ h e. omega (arith, length-append a.clients (record { name = name; client = c } ∷ []));
}

abbrev pub listeners_of : WideString → ℕ
listeners_of role = if equal role (wide "listener") then 1 else 0

abbrev pub clients_of : WideString → WideString → List WideString
clients_of role name = if equal role (wide "client") then name ∷ [] else []

module _ (towlower : ℕ → ℕ) (stoi : WideString → Stoi)
    (expand : WideString → Option WideString) where
  make_listener-Adds :
      (create : Option (IniSection → Manager → Option Listener)) (type : WideString)
      (section : IniSection) (target : WideString × Bool) (a : Application)
      → OnSome
          (λ a'. Adds a a' 1 [])
          (make_listener towlower stoi expand create type section target a)
  unfolding make_listener
  make_listener-Adds none type section target a = tt
  make_listener-Adds (some create) type section (target, true) a =
      if-OnSome (λ a'. Adds a a' 1 []) (is_forward_enabled type forward_enabled_list)
        (add_listener (create section gpg)
          (set_target (create section gpg) (replace_environment_variables expand target) a))
        none (λ e. with_target-Adds (create section gpg) _ a) (λ e. tt)
  make_listener-Adds (some create) type section (target, false) a =
      add_listener-Adds (create section proxy) a

  make_client-Adds :
      (create : Option (IniSection → Option Client)) (name : WideString) (section : IniSection)
      (a : Application)
      → OnSome (λ a'. Adds a a' 0 (name ∷ [])) (make_client create name section a)
  unfolding make_client
  make_client-Adds none name section a = tt
  make_client-Adds (some create) name section a = add_client-Adds (create section) name a

  pub role-Adds :
      (act : TypeAction) (name : WideString) (section : IniSection) (type role : WideString)
      (a : Application)
      → OnSome
          (λ a'. Adds a a' (listeners_of role) (clients_of role name))
          (configure_role towlower stoi expand act name section type role a)
  unfolding configure_role configure_listener configure_client equal
  role-Adds act name section type role a = elim (Bool-cases (equal role (wide "listener"))) [
    | inl e ↦
        let same = equal→eq role (wide "listener") e in
        subst
          (λ r.
            OnSome (λ a'. Adds a a' (listeners_of r) (clients_of r name))
              (configure_role towlower stoi expand act name section type r a))
          (sym same) (make_listener-Adds act.create_listener type section _ a)
    | inr other ↦ elim (Bool-cases (equal role (wide "client"))) [
      | inl e ↦
          let same = equal→eq role (wide "client") e in
          subst
            (λ r.
              OnSome (λ a'. Adds a a' (listeners_of r) (clients_of r name))
                (configure_role towlower stoi expand act name section type r a))
            (sym same) (make_client-Adds act.create_client name section a)
      | inr neither ↦ rw (other, neither) tt
    ]
  ]
