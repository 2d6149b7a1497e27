-- ===== src/Upstream/Pageant.antt =====
-- src/protocol/pageant/client.cpp: the window of a Pageant process is looked for, and the request and the
-- reply go through a mapping of 8192 bytes.
pub mod Memory
pub mod Windows
use ssh_agent_bridge.Base.{
  ℕ, zero, suc, ◌+◌, ◌-◌, ◌/◌, ◌%◌, Bool, true, false, not, ◌&&◌, ◌||◌, List, [], ◌∷◌, ◌++◌, Option,
  none, some, length, take, drop, head?, ltb, ◌==◌, if◌then◌else◌,
}
use ssh_agent_bridge.Base.Faults.{◌>>=◌}
use ssh_agent_bridge.Util.{WideString, equal_string_ignore_case}
use ssh_agent_bridge.Wire.{Bytes, SshMessageEnvelope, header_size, size_mod}
use ssh_agent_bridge.Wire.RoundTrip.{be32}
use ssh_agent_bridge.Upstream.{Exchanged, host_length, zeros}

abbrev pub max_pageant_message_size : ℕ
max_pageant_message_size = 8192

-- The answer of `QueryFullProcessImageNameW` to a buffer of a size: the name, too small a buffer, or
-- another error.
pub data Query : Type 0 where
  named : WideString → Query
  too_small : Query
  no_name : Query

-- The loop, from a buffer size on: the name, or a return; or it goes on beyond the rounds given.
pub data Queried : Type 0 where
  gets : WideString → Queried
  gives_up : Queried
  goes_on : Queried

unfoldable pub after_query : Query → Queried → Queried
after_query (named name) later = gets name
after_query too_small later = later
after_query no_name later = gives_up

unfoldable pub query_image_name : (ℕ → Query) → ℕ → ℕ → Queried
unfolding after_query
query_image_name query zero size = goes_on
query_image_name query (suc rounds) size =
    after_query (query size) (query_image_name query rounds (size + size / 2))

-- What stands behind the last backslash, if there is one.
unfoldable pub behind_last_slash : WideString → Option WideString
behind_last_slash [] = none
behind_last_slash (c ∷ cs) = elim (behind_last_slash cs) [
  | some name ↦ some name
  | none ↦ if c == b'\\' then some cs else none
]

-- A window: the process it belongs to, and the image name of that process, if it can be queried.
pub record Window : Type 0 where
  pub process_id : ℕ
  pub image_name : Option WideString

is_empty : WideString → Bool
is_empty [] = true
is_empty (c ∷ cs) = false

module _ (towlower : ℕ → ℕ) (own_process_id : ℕ) (process_name : WideString) where
  unfoldable pub has_file_name : Option WideString → Bool
  has_file_name none = false
  has_file_name (some name) = equal_string_ignore_case towlower process_name name

  unfoldable pub has_image : Option WideString → Bool
  unfolding has_file_name behind_last_slash
  has_image none = false
  has_image (some path) = has_file_name (behind_last_slash path)

  unfoldable pub filter_window_process : Window → Bool
  unfolding has_image is_empty
  filter_window_process w =
      if own_process_id == w.process_id
      then false
      else if is_empty process_name
      then true
      else has_image w.image_name

  -- The loop over `FindWindowExW`; `k` is what stands behind it.
  unfoldable pub find_window : List Window → Option Window → Option Window
  unfolding filter_window_process
  find_window [] k = k
  find_window (w ∷ ws) k =
      let later = find_window ws k in if filter_window_process w then some w else later

  -- `GetPageantWindowHandle`: the top-level windows named Pageant, and then the message-only ones.
  unfoldable pub get_pageant_window_handle : List Window → List Window → Option Window
  unfolding find_window
  get_pageant_window_handle top message_only = find_window top (find_window message_only none)

-- What Pageant does: whether the mapping can be made, and the memory behind `SendMessageW`, if that
-- returns more than 0.
pub record Pageant : Type 0 where
  pub maps : Bool
  pub answer : Bytes → Option Bytes

-- The mapping with the request at its front; the rest of it is zero.
unfoldable pub request_memory : SshMessageEnvelope → Bytes
request_memory m =
    let request = be32 m.length ++ take m.length m.bytes in
    request ++ zeros (max_pageant_message_size - length request)

-- The reply in the memory. `none` is a copy from behind the mapping, or a log line that reads the
-- first byte of an empty reply.
unfoldable pub read_memory : Bytes → Bytes → Option Exchanged
read_memory request memory =
    let n = host_length (take header_size memory) in
    let reply = take n (drop header_size memory) in
    if ltb (max_pageant_message_size - header_size) n
    then none
    else (head? reply >>= λ first.
        some (record {
          status = true;
          message = record { length = n; bytes = reply };
          wire = request;
        }))

unfoldable pub take_answer : SshMessageEnvelope → Option Bytes → Option Exchanged
unfolding read_memory request_memory
take_answer m none = some (record { status = false; message = m; wire = request_memory m })
take_answer m (some memory) = read_memory (request_memory m) memory

-- `PageantClient::SendSshMessage`, with the window that was found. The log line reads the first byte of
-- the request. The bytes that the agent gets are those of the mapping.
unfoldable pub exchange_in_memory : Option Window → Pageant → SshMessageEnvelope → Option Exchanged
unfolding take_answer request_memory
exchange_in_memory window p m =
    let refused = some (record { status = false; message = m; wire = [] }) in
    if ltb max_pageant_message_size ((m.length + header_size) % size_mod)
    then refused
    else (elim window [
      | none ↦ refused
      | some w ↦
          if p.maps
          then (head? m.bytes >>= λ first. take_answer m (p.answer (request_memory m)))
          else refused
    ])
