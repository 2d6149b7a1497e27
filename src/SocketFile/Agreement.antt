-- ===== src/SocketFile/Agreement.antt =====
-- The connector and the helper agree on every file.
use ssh_agent_bridge.Base.{ℕ, ◌≡◌, ◌↔◌, Bool, true, false, Option, none, some, if◌then◌else◌}
use ssh_agent_bridge.Base.Faults.{◌>>=◌}
use ssh_agent_bridge.Wire.{Bytes}
use ssh_agent_bridge.SocketFile.{
  Extracted, extract_int, is_no_port, read_nonce, skip_newlines, connector_read, aborts, opens,
  helper_nonce, helper_port, helper_read,
}

-- What the connector does with a nonce, and with a number.
abbrev with_nonce : ℕ → Option Bytes → Option (ℕ × Bytes)
with_nonce value o = o >>= λ nonce. some (value, nonce)

abbrev with_port : Option Extracted → Option (ℕ × Bytes)
with_port o =
    o >>= λ e. if is_no_port e then none else with_nonce e.value (read_nonce (skip_newlines e.rest))

abbrev in_range : Bool → Option (ℕ × Bytes) → Option (ℕ × Bytes)
in_range b o = if b then none else o

module _ (port : ℕ) (nonce : Bytes) where
  nonce_lem :
      (value : ℕ) (o : Option Bytes)
      → (with_nonce value o ≡ some (port, nonce)) ↔ (helper_nonce value o ≡ opens port nonce)
  unfolding helper_nonce
  nonce_lem value none = ((λ e. cc), (λ e. cc))
  nonce_lem value (some n) = ((λ e. cc), (λ e. cc))

  port_lem :
      (o : Option Extracted) (too_large : Bool)
      → (with_port o ≡ some (port, nonce)) ↔ (helper_port o too_large ≡ opens port nonce)
  unfolding helper_port
  port_lem none true = ((λ e. cc), (λ e. cc))
  port_lem none false = ((λ e. cc), (λ e. cc))
  port_lem (some e) too_large = by_range (is_no_port e)
    where
      by_range :
          (b : Bool)
          → (in_range b (with_nonce e.value (read_nonce (skip_newlines e.rest)))
              ≡ some (port, nonce))
            ↔ ((if b then aborts else helper_nonce e.value (read_nonce (skip_newlines e.rest)))
                ≡ opens port nonce)
      by_range true = ((λ e. cc), (λ e. cc))
      by_range false = nonce_lem e.value (read_nonce (skip_newlines e.rest))

-- On any file, the connector opens a port with a nonce just where the helper in WSL does, and it is the
-- same port and the same nonce; they differ only in how they refuse a file.
pub connector_read-helper_read :
    (file : Bytes) (too_large : Bool) (port : ℕ) (nonce : Bytes)
    → (connector_read file ≡ some (port, nonce)) ↔ (helper_read too_large file ≡ opens port nonce)
unfolding connector_read helper_read
connector_read-helper_read file too_large port nonce =
    port_lem port nonce (extract_int file) too_large
