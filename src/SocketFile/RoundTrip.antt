-- ===== src/SocketFile/RoundTrip.antt =====
-- What the listener writes, the connector and the helper read.
use ssh_agent_bridge.Base.{
  ℕ, ◌+◌, ◌^◌, ◌≤◌, ◌<◌, ◌≡◌, ◌≢◌, refl, ap, true, false, [], ◌∷◌, ◌++◌, length, take-length, All,
  none, some, ltb, leb, lt→not-leb, head?, ==→eq, ◌==◌, Bool-cases, inl, inr, arith,
}
use ssh_agent_bridge.Wire.{Bytes}
use ssh_agent_bridge.SocketFile.{
  nonce_length, decimal, socket_file, is_space, read_digits, read_number, read_sign, extract_int,
  skip_newlines, read_nonce, connector_read, returns, opens, helper_read, helper_port, helper_nonce,
}
use ssh_agent_bridge.SocketFile.Digits.{IsDigit, read_digits-decimal, decimal-digits}

-- A number written in front of a newline is extracted.
extract_digits :
    (ds rest : Bytes) (n : ℕ)
    → All IsDigit ds
    → 0 < length ds
    → n ≤ 65535
    → read_digits false 0 (ds ++ 10 ∷ rest)
      ≡ record { negative = false; value = n; rest = 10 ∷ rest }
    → extract_int (ds ++ 10 ∷ rest)
      ≡ some (record { negative = false; value = n; rest = 10 ∷ rest })
unfolding extract_int read_sign read_number
extract_digits [] rest n digits some_digit small e = absurd (omega arith)
extract_digits (d ∷ ds) rest n digits some_digit small e =
    let low : 48 ≤ d = ground (arith, digits.0) in
    let high : d ≤ 57 = ground (arith, digits.0) in
    let space : is_space d ≡ false = ground arith in
    let minus : (d == b'-') ≡ false = ground arith in
    let plus : (d == b'+') ≡ false = ground arith in
    let fits : leb (n + 1) (2 ^ 31) ≡ true = ground arith in
    rw (space, minus, plus, e, digits.0, fits) refl

skip_one : (nonce : Bytes) → head? nonce ≢ some 10 → skip_newlines (10 ∷ nonce) ≡ nonce
unfolding skip_newlines
skip_one [] other = refl
skip_one (c ∷ cs) other = elim (Bool-cases (c == 10)) [
  | inl same ↦ absurd (other (ap some (==→eq c 10 same)))
  | inr differs ↦ rw differs refl
]

length-skip_newlines : (bs : Bytes) → length (skip_newlines bs) ≤ length bs
unfolding skip_newlines
length-skip_newlines [] = omega arith
length-skip_newlines (c ∷ cs) = elim (Bool-cases (c == 10)) [
  | inl same ↦ rw same (omega (arith, length-skip_newlines cs))
  | inr differs ↦ rw differs (omega arith)
]

extract-socket_file :
    (port : ℕ) (nonce : Bytes)
    → port ≤ 65535
    → extract_int (socket_file port nonce)
      ≡ some (record { negative = false; value = port; rest = 10 ∷ nonce })
unfolding socket_file
extract-socket_file port nonce small =
    let d = decimal-digits port in
    extract_digits (decimal port) nonce port d.0 d.1 small (read_digits-decimal port 10 nonce refl)

read_nonce-whole : (nonce : Bytes) → length nonce ≡ nonce_length → read_nonce nonce ≡ some nonce
unfolding read_nonce
read_nonce-whole nonce size =
    let enough : leb nonce_length (length nonce) ≡ true = ground (arith, size) in
    rw enough (ap some (take-length nonce_length nonce (omega arith)))

-- A file that the listener has written, with a port and a nonce of 16 bytes of which the first is no
-- newline, is read by the connector and by the helper as that port and that nonce.
pub connector_read-socket_file :
    (port : ℕ) (nonce : Bytes)
    → port ≤ 65535
    → length nonce ≡ nonce_length
    → head? nonce ≢ some 10
    → (connector_read (socket_file port nonce) ≡ some (port, nonce))
      × (helper_read false (socket_file port nonce) ≡ opens port nonce)
unfolding connector_read helper_read helper_port helper_nonce
connector_read-socket_file port nonce small size other =
    let large : ltb 65535 port ≡ false = ground arith in
    let skipped = skip_one nonce other in
    let whole = read_nonce-whole nonce size in
    (
      rw (extract-socket_file port nonce small, large, skipped, whole) refl,
      rw (extract-socket_file port nonce small, large, skipped, whole) refl,
    )

-- If the first byte of the nonce is a newline, it is skipped with the one in front of it: the nonce
-- is then short of a byte, and neither reader opens the file.
pub connector_read-newline :
    (port : ℕ) (bs : Bytes)
    → port ≤ 65535
    → length (10 ∷ bs) ≡ nonce_length
    → (connector_read (socket_file port (10 ∷ bs)) ≡ none)
      × (helper_read false (socket_file port (10 ∷ bs)) ≡ returns)
unfolding connector_read helper_read helper_port helper_nonce read_nonce
connector_read-newline port bs small size =
    let large : ltb 65535 port ≡ false = ground arith in
    let short : leb nonce_length (length (skip_newlines (10 ∷ 10 ∷ bs))) ≡ false =
      lt→not-leb nonce_length (length (skip_newlines bs))
        (omega (arith, length-skip_newlines bs, size)) in
    (
      rw (extract-socket_file port (10 ∷ bs) small, large, short) refl,
      rw (extract-socket_file port (10 ∷ bs) small, large, short) refl,
    )
