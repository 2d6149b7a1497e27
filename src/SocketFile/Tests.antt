-- ===== src/SocketFile/Tests.antt =====
-- Two files: one with an ordinary nonce, and one whose nonce starts with a newline.
use ssh_agent_bridge.Base.{◌≡◌, ◌↔◌, refl, true, false, none, some, [], ◌∷◌, arith}
use ssh_agent_bridge.Wire.{Bytes}
use ssh_agent_bridge.SocketFile.{
  decimal, decimal_in, socket_file, connector_read, helper_read, returns, opens,
}
use ssh_agent_bridge.SocketFile.Agreement.{connector_read-helper_read}
use ssh_agent_bridge.SocketFile.RoundTrip.{connector_read-socket_file, connector_read-newline}

abbrev tail : Bytes
tail = 2 ∷ 3 ∷ 4 ∷ 5 ∷ 6 ∷ 7 ∷ 8 ∷ 9 ∷ 10 ∷ 11 ∷ 12 ∷ 13 ∷ 14 ∷ 15 ∷ 16 ∷ []

socket_file-bytes : socket_file 4050 [] ≡ b'4' ∷ b'0' ∷ b'5' ∷ b'0' ∷ 10 ∷ []
unfolding socket_file decimal decimal_in
socket_file-bytes = refl

connector_read-socket_file_example :
    (connector_read (socket_file 4050 (1 ∷ tail)) ≡ some (4050, 1 ∷ tail))
    × (helper_read false (socket_file 4050 (1 ∷ tail)) ≡ opens 4050 (1 ∷ tail))
connector_read-socket_file_example =
    connector_read-socket_file 4050 (1 ∷ tail) (omega arith) refl (λ e. ground arith)

newline_first :
    (connector_read (socket_file 4050 (10 ∷ tail)) ≡ none)
    × (helper_read false (socket_file 4050 (10 ∷ tail)) ≡ returns)
newline_first = connector_read-newline 4050 tail (omega arith) refl

connector_read-helper_read_example :
    (connector_read (socket_file 4050 tail) ≡ some (4050, tail))
    ↔ (helper_read true (socket_file 4050 tail) ≡ opens 4050 tail)
connector_read-helper_read_example =
    connector_read-helper_read (socket_file 4050 tail) true 4050 tail
