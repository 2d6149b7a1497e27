-- ===== src/SocketFile.antt =====
-- The socket file of libassuan: a port number, a newline and a nonce. The listener of
-- src/protocol/libassuan_socket_emulation/listener.cpp writes it; `Connect` of
-- src/protocol/libassuan_socket_emulation/connector.cpp and `HandleConnection` of wsl2_helper/main.cpp read it.
-- `std::ostream` and `std::istream` are modelled as far as these functions use them.
pub mod Digits
pub mod RoundTrip
pub mod Agreement
mod Tests
use ssh_agent_bridge.Base.{
  ℕ, zero, suc, ◌+◌, ◌-◌, ◌*◌, ◌/◌, ◌%◌, ◌^◌, Bool, true, false, not, ◌&&◌, ◌||◌, List, [], ◌∷◌,
  ◌++◌, Option, none, some, length, take, ltb, leb, ◌==◌, if◌then◌else◌,
}
use ssh_agent_bridge.Base.Faults.{◌>>=◌}
use ssh_agent_bridge.Wire.{Bytes}

abbrev pub nonce_length : ℕ
nonce_length = 16

-- `stream << n` in decimal. A digit is taken off `n` in each round, so `n + 1` rounds are enough.
unfoldable pub decimal_in : ℕ → ℕ → Bytes
decimal_in zero n = []
decimal_in (suc fuel) n =
    let front = decimal_in fuel (n / 10) in
    if ltb n 10 then (b'0' + n) ∷ [] else front ++ (b'0' + n % 10) ∷ []

unfoldable pub decimal : ℕ → Bytes
unfolding decimal_in
decimal n = decimal_in (n + 1) n

-- What the listener writes.
unfoldable pub socket_file : ℕ → Bytes → Bytes
unfolding decimal
socket_file port nonce = decimal port ++ 10 ∷ nonce

abbrev pub is_digit : ℕ → Bool
is_digit c = leb b'0' c && leb c b'9'

abbrev is_space : ℕ → Bool
is_space c = c == 32 || leb 9 c && leb c 13

-- A number and what stands behind it.
pub record Extracted : Type 0 where
  pub negative : Bool
  pub value : ℕ
  pub rest : Bytes

unfoldable pub read_digits : Bool → ℕ → Bytes → Extracted
read_digits negative n [] = record { negative = negative; value = n; rest = [] }
read_digits negative n (c ∷ cs) =
    let more = read_digits negative (n * 10 + (c - b'0')) cs in
    if is_digit c then more else record { negative = negative; value = n; rest = c ∷ cs }

-- A first digit is needed, and the number must be an `int`; else the stream fails.
unfoldable pub read_number : Bool → Bytes → Option Extracted
unfolding read_digits
read_number negative [] = none
read_number negative (c ∷ cs) =
    let e = read_digits negative 0 (c ∷ cs) in
    if is_digit c && leb (e.value + (if negative then 0 else 1)) (2 ^ 31) then some e else none

unfoldable pub read_sign : Bytes → Option Extracted
unfolding read_number
read_sign [] = none
read_sign (c ∷ cs) =
    if c == b'-'
    then read_number true cs
    else if c == b'+'
    then read_number false cs
    else read_number false (c ∷ cs)

-- `stream >> portNumber`; `none` is a stream that has failed.
unfoldable pub extract_int : Bytes → Option Extracted
unfolding read_sign
extract_int [] = none
extract_int (c ∷ cs) =
    let later = extract_int cs in if is_space c then later else read_sign (c ∷ cs)

-- `while (!eof && peek() == '\n') get()`
unfoldable pub skip_newlines : Bytes → Bytes
skip_newlines [] = []
skip_newlines (c ∷ cs) = let later = skip_newlines cs in if c == 10 then later else c ∷ cs

-- `read(nonce, 16)` and the test of `gcount`.
unfoldable pub read_nonce : Bytes → Option Bytes
read_nonce bs = if leb nonce_length (length bs) then some (take nonce_length bs) else none

-- The port number is out of range.
abbrev is_no_port : Extracted → Bool
is_no_port e = e.negative && ltb 0 e.value || ltb 65535 e.value

-- `LibassuanSocketEmulationConnector::Connect`, as far as it reads the file: the port and the nonce,
-- or `INVALID_SOCKET`. A number that is none or too large is refused by the test of its range, or
-- leaves a stream of which nothing can be read.
unfoldable pub connector_read : Bytes → Option (ℕ × Bytes)
unfolding extract_int skip_newlines read_nonce
connector_read file = extract_int file >>= λ e.
    if is_no_port e
    then none
    else read_nonce (skip_newlines e.rest) >>= λ nonce. some (e.value, nonce)

-- `HandleConnection`: the port and the nonce, a return, or a failed assertion.
pub data HelperRead : Type 0 where
  returns aborts : HelperRead
  opens : ℕ → Bytes → HelperRead

helper_nonce : ℕ → Option Bytes → HelperRead
helper_nonce port none = returns
helper_nonce port (some nonce) = opens port nonce

-- `too_large` says whether the number that could not be read was one too large for an `int`: then
-- the assertion fails, and else the number is 0 and nothing can be read.
helper_port : Option Extracted → Bool → HelperRead
unfolding helper_nonce skip_newlines read_nonce
helper_port none too_large = if too_large then aborts else returns
helper_port (some e) too_large =
    if is_no_port e then aborts else helper_nonce e.value (read_nonce (skip_newlines e.rest))

unfoldable pub helper_read : Bool → Bytes → HelperRead
unfolding helper_port extract_int
helper_read too_large file = helper_port (extract_int file) too_large
