-- ===== src/Handshake/Tests.antt =====
-- A client that sends the right nonce.
use ssh_agent_bridge.Base.{◌≡◌, refl, true, [], ◌∷◌, ◌++◌}
use ssh_agent_bridge.Wire.{Bytes}
use ssh_agent_bridge.Handshake.{
  zeros, start, read_nonce, write_nonce, ListenerData, cygwin_do_handshake, cygwin_at, fill,
  fill_at, issue, libassuan_do_handshake, libassuan_at, finish, nonce_length,
}
use ssh_agent_bridge.Base.{equal}
use ssh_agent_bridge.Handshake.Admission.{
  Reaches, begins, completes, received, IsCompletion, IsGuarded, cygwin_do_handshake-IsGuarded,
  libassuan_do_handshake_lem,
}

abbrev own : Bytes
own = 1 ∷ 2 ∷ 3 ∷ 4 ∷ 5 ∷ 6 ∷ 7 ∷ 8 ∷ 9 ∷ 10 ∷ 11 ∷ 12 ∷ 13 ∷ 14 ∷ 15 ∷ 16 ∷ []

abbrev process : Bytes
process = 0 ∷ 0 ∷ 0 ∷ 0 ∷ 0 ∷ 0 ∷ 0 ∷ 0 ∷ 0 ∷ 0 ∷ 0 ∷ 0 ∷ []

abbrev fresh : ListenerData
fresh = record { state = start; nonce = zeros nonce_length; info = [] }

abbrev asked : ListenerData
asked = (cygwin_do_handshake own process true 0 (fill [] fresh)).data_after

asked-Reaches : Reaches own process [] asked
unfolding cygwin_do_handshake cygwin_at fill fill_at issue
asked-Reaches = completes true 0 [] (begins []) tt refl

asked-IsCompletion : IsCompletion own asked.state 16 own
unfolding cygwin_do_handshake cygwin_at fill fill_at issue
asked-IsCompletion = refl

-- The nonce is accepted, and written back.
asked-answered :
    (cygwin_do_handshake own process true 16 (fill own asked)).data_after.state ≡ write_nonce
unfolding cygwin_do_handshake cygwin_at fill fill_at issue equal
asked-answered = refl

cygwin_do_handshake-IsGuarded_example :
    IsGuarded own
      ([] ++ received own asked.state own)
      (cygwin_do_handshake own process true 16 (fill own asked))
cygwin_do_handshake-IsGuarded_example =
    cygwin_do_handshake-IsGuarded own process [] asked true 16 own asked-Reaches asked-IsCompletion

abbrev sent : ListenerData
sent = record { state = read_nonce; nonce = own; info = [] }

sent-done : (libassuan_do_handshake own true 16 sent).is_done ≡ true
unfolding libassuan_do_handshake libassuan_at equal finish
sent-done = refl

libassuan_do_handshake_lem_example :
    (sent.state ≡ read_nonce) × (16 ≡ nonce_length) × (sent.nonce ≡ own)
libassuan_do_handshake_lem_example = libassuan_do_handshake_lem own true 16 sent sent-done
