-- ===== src/Upstream/Tests.antt =====
-- Exchanges with an agent that answers, and the witnesses.
use ssh_agent_bridge.Base.{
  ℕ, ◌-◌, ◌≡◌, ◌≢◌, refl, true, false, [], ◌∷◌, ◌++◌, none, some, length, arith, ltb, if◌then◌else◌,
}
use ssh_agent_bridge.Util.{wide}
use ssh_agent_bridge.Wire.{Bytes, SshMessageEnvelope}
use ssh_agent_bridge.Wire.Words.{store_le, load_le, byte_swap}
use ssh_agent_bridge.Wire.RoundTrip.{be32}
use ssh_agent_bridge.Upstream.{Connection, exchange_on_socket, zeros}
use ssh_agent_bridge.Upstream.Exchange.{frame, IsExchanged, exchange_on_socket-IsExchanged}
use ssh_agent_bridge.Upstream.Answered.{exchange_on_socket-answers}
use ssh_agent_bridge.Upstream.Pageant.{
  Query, named, too_small, goes_on, query_image_name, Window, Pageant, get_pageant_window_handle,
  exchange_in_memory,
}
use ssh_agent_bridge.Upstream.Pageant.Windows.{
  query_image_name-ends, Searched, get_pageant_window_handle-Searched,
}
use ssh_agent_bridge.Upstream.Pageant.Memory.{
  exchange_in_memory-answers, exchange_in_memory-refuses, exchange_in_memory-overruns,
}

abbrev request : SshMessageEnvelope
request = record { length = 1; bytes = 11 ∷ [] }

abbrev reply : SshMessageEnvelope
reply = record { length = 2; bytes = 12 ∷ 7 ∷ [] }

-- A byte at a time; the stream goes on behind the reply.
abbrev bytewise : Connection
bytewise = record {
  opens = true;
  writes = some 1 ∷ some 1 ∷ some 1 ∷ some 1 ∷ some 1 ∷ [];
  reads = some 1 ∷ some 1 ∷ some 1 ∷ some 1 ∷ some 1 ∷ some 1 ∷ [];
  incoming = 0 ∷ 0 ∷ 0 ∷ 2 ∷ 12 ∷ 7 ∷ 99 ∷ [];
}

abbrev in_two_messages : Connection
in_two_messages = record {
  opens = true;
  writes = some 4 ∷ some 9 ∷ [];
  reads = some 4 ∷ some 4 ∷ [];
  incoming = 0 ∷ 0 ∷ 0 ∷ 2 ∷ 12 ∷ 7 ∷ [];
}

exchange_on_socket-answers_example :
    exchange_on_socket bytewise request
    ≡ record { status = true; message = reply; wire = frame request }
unfolding store_le byte_swap load_le
exchange_on_socket-answers_example =
    exchange_on_socket-answers bytewise reply (99 ∷ []) refl (omega arith) refl (omega arith)
      request refl refl (omega arith) (omega arith)

exchange_on_socket-IsExchanged_example :
    IsExchanged request bytewise.incoming (exchange_on_socket bytewise request)
exchange_on_socket-IsExchanged_example =
    exchange_on_socket-IsExchanged bytewise request refl
      (
        omega arith,
        (
          omega arith,
          (omega arith, (omega arith, (omega arith, (omega arith, (omega arith, tt))))),
        ),
      )
      done
  where
    done : (exchange_on_socket bytewise request).status ≡ true
    done = rw exchange_on_socket-answers_example refl

abbrev needs_400 : ℕ → Query
needs_400 size = if ltb 400 size then named (wide "\\Device\\pageant.exe") else too_small

image_name_in_142_rounds : query_image_name needs_400 142 260 ≢ goes_on
image_name_in_142_rounds =
    query_image_name-ends needs_400 400 (λ size h e. ground (arith, h, e)) 141 260 (omega arith)
      (omega arith)

abbrev own_window : Window
own_window = record { process_id = 7; image_name = none }

abbrev other_window : Window
other_window = record { process_id = 8; image_name = some (wide "C:\\pageant.exe") }

get_pageant_window_handle-Searched_example :
    Searched
      (λ c. c)
      7
      (wide "pageant.exe")
      (own_window ∷ other_window ∷ [])
      (get_pageant_window_handle
        (λ c. c)
        7
        (wide "pageant.exe")
        (own_window ∷ [])
        (other_window ∷ []))
get_pageant_window_handle-Searched_example =
    get_pageant_window_handle-Searched (λ c. c) 7 (wide "pageant.exe") (own_window ∷ [])
      (other_window ∷ [])

abbrev answering : Bytes → Pageant
answering memory = record { maps = true; answer = λ bs. some memory }

abbrev given : Bytes
given = frame request ++ zeros (8192 - length (frame request))

answer_taken :
    exchange_in_memory (some other_window) (answering (frame reply ++ 99 ∷ [])) request
    ≡ some (record { status = true; message = reply; wire = given })
answer_taken =
    exchange_in_memory-answers other_window (answering (frame reply ++ 99 ∷ [])) request reply
      (99 ∷ []) refl (omega arith) (omega arith) refl (omega arith) (omega arith) refl refl

abbrev too_long : SshMessageEnvelope
too_long = record { length = 9000; bytes = zeros 9000 }

refuses_too_long :
    exchange_in_memory (some other_window) (answering []) too_long
    ≡ some (record { status = false; message = too_long; wire = [] })
refuses_too_long =
    exchange_in_memory-refuses (some other_window) (answering []) too_long (omega arith)
      (omega arith)

copies_beyond :
    exchange_in_memory (some other_window) (answering (be32 9000 ++ 12 ∷ [])) request ≡ none
copies_beyond =
    exchange_in_memory-overruns other_window (answering (be32 9000 ++ 12 ∷ [])) request 9000
      (12 ∷ []) (omega arith) (omega arith) refl (omega arith) (omega arith) refl
