-- ===== src/Upstream/Pipe.antt =====
-- The exchange over a named pipe keeps the request until it has the reply.
use ssh_agent_bridge.Base.{◌≡◌, true, false, Option, none, some}
use ssh_agent_bridge.Wire.{Bytes, SshMessageEnvelope}
use ssh_agent_bridge.Upstream.{Exchanged}
use ssh_agent_bridge.Upstream.Exchange.{IsExchanged}

-- A successful exchange, or the request as it was.
pub record IsAllOrNothing (m : SshMessageEnvelope) (incoming : Bytes) (x : Exchanged) : Type 0 where
  pub done : x.status ≡ true → IsExchanged m incoming x
  pub kept : x.status ≡ false → x.message ≡ m

abbrev IfReturned : SshMessageEnvelope → Bytes → Option Exchanged → Type 0
IfReturned m incoming none = Unit
IfReturned m incoming (some x) = IsAllOrNothing m incoming x
