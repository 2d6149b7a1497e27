-- ===== src/Upstream/Channel.antt =====
-- The sends and reads of one buffer.
use ssh_agent_bridge.Base.{
  ℕ, zero, suc, ◌+◌, ◌-◌, ◌≤◌, ◌≡◌, refl, ap, ◌∙◌, true, false, List, [], ◌∷◌, ◌++◌, append_assoc,
  Option, none, some, length, length-append, take, drop, take-append-drop, length-take, length-drop,
  min, arith, take-length, ==→eq, if_lem, ◌==◌, ltb, ◌^◌,
}
use ssh_agent_bridge.Wire.{Bytes, SshMessageEnvelope}
use ssh_agent_bridge.Upstream.{
  Outgoing, Incoming, send_body, send_buffer, receive_buffer, write_buffer_to_pipe,
  read_buffer_from_pipe,
}

take-whole : (n : ℕ) (bs : Bytes) → length (take n bs) ≡ length bs → take n bs ≡ bs
take-whole n bs e = take-length n bs (ground (arith, length-take n bs, e))

take-drop-length : (n : ℕ) (bs : Bytes) → take n bs ++ drop (length (take n bs)) bs ≡ bs
take-drop-length zero bs = refl
take-drop-length (suc n) [] = refl
take-drop-length (suc n) (b ∷ bs) = ap (◌∷◌ b) (take-drop-length n bs)

-- A send that reports success has put the whole buffer on the wire.
pub send_buffer-whole :
    (script : List (Option ℕ)) (bs : Bytes)
    → (send_buffer script bs).is_sent ≡ true
    → (send_buffer script bs).wire ≡ bs
unfolding send_buffer
send_buffer-whole script [] e = refl
send_buffer-whole [] (b ∷ bs) e = cc
send_buffer-whole (none ∷ script) (b ∷ bs) e = cc
send_buffer-whole (some n ∷ script) (b ∷ bs) e =
    ap (λ t. take n (b ∷ bs) ++ t) (send_buffer-whole script (drop n (b ∷ bs)) e)
    ∙ take-append-drop n (b ∷ bs)

pub send_body-whole :
    (script : List (Option ℕ)) (m : SshMessageEnvelope)
    → (send_body script m).is_sent ≡ true
    → (send_body script m).wire ≡ take m.length m.bytes
unfolding send_body
send_body-whole script m =
    if_lem (λ (o : Outgoing). o.is_sent ≡ true → o.wire ≡ take m.length m.bytes)
      (ltb m.length (2 ^ 31)) _ _ (λ small. send_buffer-whole script (take m.length m.bytes))
      (λ large d. cc)

pub write_buffer_to_pipe-whole :
    (script : List (Option ℕ)) (bs : Bytes)
    → (write_buffer_to_pipe script bs).is_sent ≡ true
    → (write_buffer_to_pipe script bs).wire ≡ bs
unfolding write_buffer_to_pipe
write_buffer_to_pipe-whole [] bs e = cc
write_buffer_to_pipe-whole (none ∷ script) bs e = cc
write_buffer_to_pipe-whole (some n ∷ script) bs e =
    take-whole n bs (==→eq (length (take n bs)) (length bs) e)

-- What a read that reports success has taken off the stream.
pub record IsTaken (need : ℕ) (coming : Bytes) (r : Incoming) : Type 0 where
  pub all : length r.bytes ≡ need
  pub front : r.bytes ++ r.incoming ≡ coming

pub receive_buffer-IsTaken :
    (script : List (Option ℕ)) (need : ℕ) (coming : Bytes)
    → (receive_buffer script need coming).is_received ≡ true
    → IsTaken need coming (receive_buffer script need coming)
unfolding receive_buffer
receive_buffer-IsTaken script zero coming e = record { all = refl; front = refl }
receive_buffer-IsTaken [] (suc need) coming e = cc
receive_buffer-IsTaken (none ∷ script) (suc need) coming e = cc
receive_buffer-IsTaken (some n ∷ script) (suc need) coming e =
    let got = take (min n (suc need)) coming in
    let k = length got in
    if_lem (λ r. r.is_received ≡ true → IsTaken (suc need) coming r) (k == 0) _ _ (λ t d. cc)
      (λ f d.
        let later = receive_buffer-IsTaken script (suc need - k) (drop k coming) d in
        let r = receive_buffer script (suc need - k) (drop k coming) in
        record {
          all =
              omega (
                arith,
                length-append got r.bytes,
                later.all,
                length-take (min n (suc need)) coming,
              );
          front =
              append_assoc got r.bytes r.incoming
              ∙ ap (λ t. got ++ t) later.front
              ∙ take-drop-length (min n (suc need)) coming;
        })
      e

pub read_buffer_from_pipe-IsTaken :
    (script : List (Option ℕ)) (need : ℕ) (coming : Bytes)
    → (read_buffer_from_pipe script need coming).is_received ≡ true
    → IsTaken need coming (read_buffer_from_pipe script need coming)
unfolding read_buffer_from_pipe
read_buffer_from_pipe-IsTaken [] need coming e = cc
read_buffer_from_pipe-IsTaken (none ∷ script) need coming e = cc
read_buffer_from_pipe-IsTaken (some n ∷ script) need coming e = record {
  all = ==→eq (length (take (min n need) coming)) need e;
  front = take-drop-length (min n need) coming;
}

-- So many calls before the first error, each of which moves at least a byte.
abbrev pub rounds : List (Option ℕ) → ℕ
rounds [] = 0
rounds (none ∷ script) = 0
rounds (some zero ∷ script) = 0
rounds (some (suc n) ∷ script) = suc (rounds script)

-- Enough such calls send the whole buffer, and no more of them are used than it has bytes.
pub record IsSentBy (script : List (Option ℕ)) (bs : Bytes) (o : Outgoing) : Type 0 where
  pub done : o.is_sent ≡ true
  pub whole : o.wire ≡ bs
  pub left : rounds script ≤ rounds o.script + length bs

pub send_buffer-rounds :
    (script : List (Option ℕ)) (bs : Bytes)
    → length bs ≤ rounds script
    → IsSentBy script bs (send_buffer script bs)
unfolding send_buffer
send_buffer-rounds script [] h = record { done = refl; whole = refl; left = omega arith }
send_buffer-rounds [] (b ∷ bs) h = absurd (omega arith)
send_buffer-rounds (none ∷ script) (b ∷ bs) h = absurd (omega arith)
send_buffer-rounds (some zero ∷ script) (b ∷ bs) h = absurd (omega arith)
send_buffer-rounds (some (suc n) ∷ script) (b ∷ bs) h =
    let later = send_buffer-rounds script (drop n bs) (omega (arith, length-drop n bs)) in
    record {
      done = later.done;
      whole = ap (λ t. b ∷ take n bs ++ t) later.whole ∙ ap (◌∷◌ b) (take-append-drop n bs);
      left = omega (arith, later.left, length-drop n bs);
    }

-- The same for a read, on a stream that begins with the bytes that are needed.
pub record IsReceivedBy (script : List (Option ℕ)) (bs rest : Bytes) (i : Incoming) : Type 0 where
  pub done : i.is_received ≡ true
  pub whole : i.bytes ≡ bs
  pub behind : i.incoming ≡ rest
  pub left : rounds script ≤ rounds i.script + length bs

zero_min : (n : ℕ) → min 0 n ≡ 0
zero_min n = omega arith

min_zero : (n : ℕ) → min n 0 ≡ 0
min_zero n = omega arith

min-suc : (m n : ℕ) → min (suc m) (suc n) ≡ suc (min m n)
min-suc m n = omega arith

take-front : (n : ℕ) (bs rest : Bytes) → take (min n (length bs)) (bs ++ rest) ≡ take n bs
take-front zero bs rest = rw (zero_min (length bs)) refl
take-front (suc n) [] rest = rw (min_zero (suc n)) refl
take-front (suc n) (b ∷ bs) rest = rw (min-suc n (length bs)) (ap (◌∷◌ b) (take-front n bs rest))

drop-front : (n : ℕ) (bs rest : Bytes) → drop (length (take n bs)) (bs ++ rest) ≡ drop n bs ++ rest
drop-front zero bs rest = refl
drop-front (suc n) [] rest = refl
drop-front (suc n) (b ∷ bs) rest = drop-front n bs rest

pub receive_buffer-rounds :
    (script : List (Option ℕ)) (bs rest : Bytes)
    → length bs ≤ rounds script
    → IsReceivedBy script bs rest (receive_buffer script (length bs) (bs ++ rest))
unfolding receive_buffer
receive_buffer-rounds script [] rest h = record {
  done = refl;
  whole = refl;
  behind = refl;
  left = omega arith;
}
receive_buffer-rounds [] (b ∷ bs) rest h = absurd (omega arith)
receive_buffer-rounds (none ∷ script) (b ∷ bs) rest h = absurd (omega arith)
receive_buffer-rounds (some zero ∷ script) (b ∷ bs) rest h = absurd (omega arith)
receive_buffer-rounds (some (suc n) ∷ script) (b ∷ bs) rest h =
    let X = b ∷ bs in
    let g = take (suc n) X in
    let some_bytes : (length g == 0) ≡ false = ground arith in
    let still : suc (length bs) - length g ≡ length (drop n bs) =
      omega (arith, length-take n bs, length-drop n bs) in
    let later = receive_buffer-rounds script (drop n bs) rest (omega (arith, length-drop n bs)) in
    rw (take-front (suc n) X rest, some_bytes, still, drop-front n bs rest)
      (record {
        done = later.done;
        whole = ap (λ t. b ∷ take n bs ++ t) later.whole ∙ ap (◌∷◌ b) (take-append-drop n bs);
        behind = later.behind;
        left = omega (arith, later.left, length-drop n bs);
      })
