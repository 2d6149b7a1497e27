-- ===== src/PageantListener/Tests.antt =====
-- A request and its reply, and the witnesses.
use ssh_agent_bridge.Base.{◌≡◌, ◌↔◌, refl, true, false, [], ◌∷◌, some, none, arith}
use ssh_agent_bridge.Wire.{SshMessageEnvelope}
use ssh_agent_bridge.Upstream.Pageant.{Window, exchange_in_memory}
use ssh_agent_bridge.PageantListener.{
  Reply, replies_later, replies_at_once, locks_itself, process_mapping,
}
use ssh_agent_bridge.PageantListener.Served.{
  IsAtOnce, FitsIn, holding, mapped, listener, exchange_in_memory-process_mapping,
  process_mapping-locks_itself,
}

abbrev request : SshMessageEnvelope
request = record { length = 1; bytes = 11 ∷ [] }

abbrev reply : SshMessageEnvelope
reply = record { length = 5; bytes = 12 ∷ 0 ∷ 0 ∷ 0 ∷ 0 ∷ [] }

request-FitsIn : FitsIn request
request-FitsIn = record { sized = refl; some_bytes = omega arith; fits = omega arith }

reply-FitsIn : FitsIn reply
reply-FitsIn = record { sized = refl; some_bytes = omega arith; fits = omega arith }

abbrev other_process : Window
other_process = record { process_id = 8; image_name = none }

exchange_in_memory-process_mapping_example :
    exchange_in_memory (some other_process) (listener true (λ m. replies_later true reply)) request
    ≡ some (record { status = true; message = reply; wire = holding request })
exchange_in_memory-process_mapping_example =
    exchange_in_memory-process_mapping other_process true (λ m. replies_later true reply) request
      reply request-FitsIn reply-FitsIn refl

-- `PostRequest` of a dispatcher that was stopped.
abbrev stopped : SshMessageEnvelope → Reply
stopped m = replies_at_once false m

process_mapping-locks_itself_example :
    (process_mapping true false stopped (mapped (holding request)) ≡ locks_itself)
    ↔ IsAtOnce (stopped request)
process_mapping-locks_itself_example =
    process_mapping-locks_itself true stopped request request-FitsIn
