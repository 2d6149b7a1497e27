-- ===== src/PageantListener/Served.antt =====
-- The client and the listener of Pageant understand each other.
use ssh_agent_bridge.Base.{
  ℕ, zero, suc, ◌+◌, ◌-◌, ◌%◌, ◌≤◌, ◌<◌, ◌≡◌, refl, sym, subst, ap, ◌∙◌, Bool, true, false, [], ◌∷◌,
  ◌++◌, append_assoc, Option, none, some, length, length-append, take, take-append, drop, arith,
  ltb, leb, if◌then◌else◌, if_lem, ◌↔◌,
}
use ssh_agent_bridge.Wire.{Bytes, SshMessageEnvelope, header_size, u32_mod, size_mod}
use ssh_agent_bridge.Wire.Words.{byte_swap, length-store_le}
use ssh_agent_bridge.Wire.RoundTrip.{be32}
use ssh_agent_bridge.Upstream.{zeros}
use ssh_agent_bridge.Upstream.Exchange.{frame, host_length-be32}
use ssh_agent_bridge.Upstream.Pageant.{
  max_pageant_message_size, Window, Pageant, exchange_in_memory,
}
use ssh_agent_bridge.Upstream.Pageant.Memory.{take-header, drop-header, exchange_in_memory-answers}
use ssh_agent_bridge.PageantListener.{
  Request, Reply, replies_later, replies_at_once, Outcome, refuses, answers, faults, locks_itself,
  Airing, lock, unlock, reply_callback, finish_request, write_reply, with_first, take_reply,
  hand_on, read_request, read_mapped, process_mapping,
}

-- A request of this process' user in a mapping.
abbrev pub mapped : Bytes → Request
mapped memory = record {
  is_terminated = true;
  is_opened = true;
  is_owner_accepted = true;
  memory = some memory;
}

abbrev pub memory_of : Outcome → Option Bytes
memory_of (answers memory) = some memory
memory_of _ = none

-- Pageant as this listener is one.
abbrev pub listener : Bool → (SshMessageEnvelope → Reply) → Pageant
listener permission_check_flag receive_callback = record {
  maps = true;
  answer = λ memory.
      memory_of (process_mapping permission_check_flag false receive_callback (mapped memory));
}

-- The memory that holds a message in front.
abbrev pub holding : SshMessageEnvelope → Bytes
holding m = frame m ++ zeros (max_pageant_message_size - length (frame m))

-- A message that is not empty and fits in the mapping.
pub record FitsIn (m : SshMessageEnvelope) : Type 0 where
  pub sized : m.length ≡ length m.bytes
  pub some_bytes : 0 < m.length
  pub fits : m.length + header_size ≤ max_pageant_message_size

length-zeros : (n : ℕ) → length (zeros n) ≡ n
length-zeros zero = refl
length-zeros (suc n) = ap suc (length-zeros n)

length-holding : (m : SshMessageEnvelope) → FitsIn m → length (holding m) ≡ max_pageant_message_size
length-holding m f =
    let parts = length-append (frame m) (zeros (max_pageant_message_size - length (frame m))) in
    let front = length-append (be32 m.length) m.bytes in
    omega (
      arith,
      parts,
      front,
      length-zeros (max_pageant_message_size - length (frame m)),
      length-store_le 4 (byte_swap 4 m.length),
      f.sized,
      f.fits,
    )

with_first-some : (bs : Bytes) (k : Outcome) → 0 < length bs → with_first bs k ≡ k
unfolding with_first
with_first-some [] k h = absurd (omega arith)
with_first-some (b ∷ bs) k h = refl

read_request-be32 :
    (p c : Bool) (receive_callback : SshMessageEnvelope → Reply) (n : ℕ) (bs : Bytes)
    → n < u32_mod
    → read_request p c receive_callback (be32 n ++ bs) ≡ (
        if leb (header_size + n) (length (be32 n ++ bs))
        then hand_on p c receive_callback (be32 n ++ bs) (record { length = n; bytes = take n bs })
        else faults)
unfolding read_request
read_request-be32 p c receive_callback n bs h =
    rw (take-header n bs, drop-header n bs, host_length-be32 n h) refl

-- The message is on air, and this thread holds the mutex.
abbrev on_air : Airing
on_air = record { msg_mutex = true; message_on_air = true; message_status = false }

-- The request is read as it was written, and handed on unless the listener was cancelled.
read_request-holding :
    (p c : Bool) (receive_callback : SshMessageEnvelope → Reply) (m : SshMessageEnvelope)
    → FitsIn m
    → read_request p c receive_callback (holding m)
      ≡ (if c then refuses else take_reply (holding m) on_air (receive_callback m))
unfolding hand_on lock
read_request-holding p c receive_callback m f =
    let zs = zeros (max_pageant_message_size - length (frame m)) in
    let start = append_assoc (be32 m.length) m.bytes zs in
    let inside : leb (header_size + m.length) (length (be32 m.length ++ (m.bytes ++ zs))) ≡ true =
      ground (arith, ap length (sym start) ∙ length-holding m f, f.fits) in
    let whole : take m.length (m.bytes ++ zs) ≡ m.bytes =
      rw (sym f.sized) at (take-append m.bytes zs) in
    ap (read_request p c receive_callback) start
    ∙ read_request-be32 p c receive_callback m.length (m.bytes ++ zs) (omega (arith, f.fits))
    ∙ rw
        (
          inside,
          whole,
          with_first-some m.bytes
              (if c
                then refuses
                else take_reply (be32 m.length ++ (m.bytes ++ zs)) on_air (receive_callback m))
              (omega (arith, f.sized, f.some_bytes)),
        )
        (ap (λ b. if c then refuses else take_reply b on_air (receive_callback m)) (sym start))

process_mapping-holding :
    (p c : Bool) (receive_callback : SshMessageEnvelope → Reply) (m : SshMessageEnvelope)
    → FitsIn m
    → process_mapping p c receive_callback (mapped (holding m))
      ≡ (if c then refuses else take_reply (holding m) on_air (receive_callback m))
unfolding process_mapping read_mapped
process_mapping-holding true c receive_callback m f =
    read_request-holding true c receive_callback m f
process_mapping-holding false c receive_callback m f =
    read_request-holding false c receive_callback m f

-- A reply that fits is written to the front of the memory.
take_reply-answers :
    (memory : Bytes) (r : SshMessageEnvelope)
    → FitsIn r
    → length memory ≡ max_pageant_message_size
    → take_reply memory on_air (replies_later true r)
      ≡ answers (frame r ++ drop (header_size + length r.bytes) memory)
unfolding take_reply write_reply reply_callback lock unlock finish_request
take_reply-answers memory r f e =
    let short : ltb max_pageant_message_size ((r.length + header_size) % size_mod) ≡ false =
      ground (arith, f.fits) in
    let inside : leb (header_size + length r.bytes) (length memory) ≡ true =
      ground (arith, e, f.fits, f.sized) in
    with_first-some r.bytes (write_reply memory r) (omega (arith, f.sized, f.some_bytes))
    ∙ rw (short, inside) refl

-- A client of Pageant that finds this listener gets the reply of the dispatcher: for a request of the same
-- user that is not empty and fits in the mapping, to a listener that is not cancelled, where the
-- dispatcher replies later, with success and a message that is not empty and fits, the exchange
-- succeeds and the message is that reply.
pub exchange_in_memory-process_mapping :
    (w : Window) (p : Bool) (receive_callback : SshMessageEnvelope → Reply)
    (m r : SshMessageEnvelope)
    → FitsIn m
    → FitsIn r
    → receive_callback m ≡ replies_later true r
    → exchange_in_memory (some w) (listener p receive_callback) m
      ≡ some (record { status = true; message = r; wire = holding m })
exchange_in_memory-process_mapping w p receive_callback m r f g replies =
    let rest = drop (header_size + length r.bytes) (holding m) in
    let answered : memory_of (process_mapping p false receive_callback (mapped (holding m)))
        ≡ some (frame r ++ rest) =
      ap memory_of (
        process_mapping-holding p false receive_callback m f
        ∙ ap (take_reply (holding m) on_air) replies
        ∙ take_reply-answers (holding m) r g (length-holding m f)) in
    exchange_in_memory-answers w (listener p receive_callback) m r rest f.sized f.some_bytes f.fits
      g.sized g.some_bytes g.fits refl answered

-- The receive callback replies at once.
abbrev pub IsAtOnce : Reply → Type 0
IsAtOnce r = (status : Bool) × (m : SshMessageEnvelope) × (r ≡ replies_at_once status m)

abbrev IsUnlocked : Outcome → Type 0
IsUnlocked locks_itself = ⊥
IsUnlocked _ = Unit

write_reply-IsUnlocked :
    (memory : Bytes) (m : SshMessageEnvelope) → IsUnlocked (write_reply memory m)
unfolding write_reply
write_reply-IsUnlocked memory m =
    if_lem IsUnlocked (ltb max_pageant_message_size ((m.length + header_size) % size_mod)) _ _
      (λ long. tt)
      λ short.
        if_lem IsUnlocked (leb (header_size + length m.bytes) (length memory)) _ _ (λ inside. tt)
          λ outside. tt

with_first-IsUnlocked : (bs : Bytes) (k : Outcome) → IsUnlocked k → IsUnlocked (with_first bs k)
unfolding with_first
with_first-IsUnlocked [] k h = tt
with_first-IsUnlocked (b ∷ bs) k h = h

no_lock :
    (memory : Bytes) (m : SshMessageEnvelope)
    → ¬ (with_first m.bytes (write_reply memory m) ≡ locks_itself)
no_lock memory m e =
    subst IsUnlocked e
      (with_first-IsUnlocked m.bytes (write_reply memory m) (write_reply-IsUnlocked memory m))

take_reply-locks_itself :
    (memory : Bytes) (r : Reply) → (take_reply memory on_air r ≡ locks_itself) ↔ IsAtOnce r
unfolding take_reply reply_callback lock unlock finish_request
take_reply-locks_itself memory (replies_at_once status m) = ((λ e. (status, m, refl)), (λ h. refl))
take_reply-locks_itself memory (replies_later false m) = ((λ e. cc), (λ h. cc))
take_reply-locks_itself memory (replies_later true m) =
    ((λ e. absurd (no_lock memory m e)), (λ h. cc))

-- A request that fits, to a listener that is not cancelled, makes the thread lock the mutex that it holds
-- itself in just the cases in which the receive callback calls the reply callback at once, as the
-- dispatcher does once it was stopped; a reply that comes later from the worker never does.
pub process_mapping-locks_itself :
    (p : Bool) (receive_callback : SshMessageEnvelope → Reply) (m : SshMessageEnvelope)
    → FitsIn m
    → (process_mapping p false receive_callback (mapped (holding m)) ≡ locks_itself)
      ↔ IsAtOnce (receive_callback m)
process_mapping-locks_itself p receive_callback m f =
    rw (process_mapping-holding p false receive_callback m f)
      (take_reply-locks_itself (holding m) (receive_callback m))
