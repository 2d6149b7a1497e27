-- ===== src/Handshake/Admission.antt =====
-- Who is admitted: only a client that has sent the nonce.
use ssh_agent_bridge.Base.{
  ℕ, ◌≡◌, refl, sym, subst, ◌∙◌, Bool, true, false, not, ◌==◌, if◌then◌else◌, Bool-cases, inl, inr,
  ==→eq, [], ◌++◌, append-nil, append_assoc, length, drop, drop-length, All, arith,
}
use ssh_agent_bridge.Wire.{Bytes}
use ssh_agent_bridge.Proxy.{Effect, writes}
use ssh_agent_bridge.Base.{equal, equal→eq}
use ssh_agent_bridge.Handshake.{
  State, start, read_nonce, write_nonce, read_info, write_info, ListenerData, Answered, issue,
  dispose, finish, cygwin_at, zeros, cygwin_do_handshake, libassuan_at, libassuan_do_handshake,
  fill, fill_at, nonce_length, info_length,
}

module _ (own : Bytes) where
  -- The nonce is the first that the client has sent.
  abbrev pub HasSent : Bytes → Type 0
  HasSent sent = (rest : Bytes) × (sent ≡ own ++ rest)

  -- Before the nonce is read, the client has sent nothing, and the buffer has the size of a nonce; behind
  -- the comparison, it has sent the nonce.
  abbrev IsAdmittedAt : State → Bytes → ListenerData → Type 0
  IsAdmittedAt start sent d = (sent ≡ []) × (length d.nonce ≡ nonce_length)
  IsAdmittedAt read_nonce sent d = (sent ≡ []) × (length d.nonce ≡ nonce_length)
  IsAdmittedAt _ sent d = HasSent sent

  -- What a call may do for a client that has sent so much: it returns true, or writes, only if the nonce
  -- was sent.
  abbrev IsHarmless : Bytes → Effect → Type 0
  IsHarmless sent (writes bs) = HasSent sent
  IsHarmless sent _ = Unit

  pub record IsGuarded (sent : Bytes) (r : Answered) : Type 0 where
    pub done : r.is_done ≡ true → HasSent sent
    pub harmless : All (IsHarmless sent) r.effects

  -- A call that is guarded, and leaves data from which the next call is guarded, unless the connection
  -- was disposed of.
  record IsKept (sent : Bytes) (r : Answered) : Type 0 where
    guarded : IsGuarded sent r
    admitted : r.disposed ≡ false → IsAdmittedAt r.data_after.state sent r.data_after

  if-IsKept :
      (sent : Bytes) (b : Bool) (x y : Answered)
      → (b ≡ true → IsKept sent x)
      → (b ≡ false → IsKept sent y)
      → IsKept sent (if b then x else y)
  if-IsKept sent true x y h k = h refl
  if-IsKept sent false x y h k = k refl

  dispose-IsKept : (sent : Bytes) (d : ListenerData) → IsKept sent (dispose d)
  unfolding dispose
  dispose-IsKept sent d = record {
    guarded = record { done = λ e. cc; harmless = tt };
    admitted = λ e. cc;
  }

  not-false : (b : Bool) → not b ≡ false → b ≡ true
  not-false true e = refl
  not-false false e = cc

  -- What the client sends with a completion: the bytes that a read gives, and none for a write.
  abbrev pub received : State → Bytes → Bytes
  received read_nonce bs = bs
  received read_info bs = bs
  received _ bs = []

  -- A completed read transfers as many bytes as it gives.
  abbrev pub IsCompletion : State → ℕ → Bytes → Type 0
  IsCompletion read_nonce n bs = n ≡ length bs
  IsCompletion read_info n bs = n ≡ length bs
  IsCompletion _ n bs = Unit

  -- A whole nonce that is accepted is what the client sent.
  accepted :
      (bs : Bytes) (d : ListenerData)
      → length bs ≡ nonce_length
      → length d.nonce ≡ nonce_length
      → bs ++ drop (length bs) d.nonce ≡ own
      → HasSent bs
  accepted bs d whole size same =
      let nothing : drop (length bs) d.nonce ≡ [] =
        drop-length (length bs) d.nonce (omega (arith, whole, size)) in
      ([], sym (append-nil bs) ∙ (rw nothing at same) ∙ sym (append-nil own))

  more : (sent bs : Bytes) → HasSent sent → HasSent (sent ++ bs)
  more sent bs (rest, e) = (rest ++ bs, rw e (append_assoc own rest bs))

  module _ (server_info : Bytes) where
    -- One call, by the state in which a completion finds the connection.
    filled-IsKept :
        (st : State) (sent : Bytes) (issued : Bool) (n : ℕ) (bs : Bytes) (d : ListenerData)
        → d.state ≡ st
        → IsCompletion st n bs
        → IsAdmittedAt st sent d
        → IsKept (sent ++ received st bs) (cygwin_at own server_info st issued n (fill_at st bs d))
    unfolding cygwin_at issue finish fill_at
    filled-IsKept start sent issued n bs d e size (nothing, full) = record {
      guarded = record { done = λ x. cc; harmless = (tt, tt) };
      admitted = λ x. (rw nothing refl, full);
    }
    filled-IsKept read_nonce sent issued n bs d e size (nothing, full) =
        if-IsKept _ (not (n == nonce_length)) _ _ (λ x. dispose-IsKept _ _)
          λ x.
            if-IsKept _ (not (equal (bs ++ drop (length bs) d.nonce) own)) _ _
              (λ y. dispose-IsKept _ _)
              λ y.
                let whole = ==→eq n nonce_length (not-false _ x) in
                let same = equal→eq (bs ++ drop (length bs) d.nonce) own (not-false _ y) in
                let has : HasSent (sent ++ bs) =
                  rw nothing (accepted bs d (sym size ∙ whole) full same) in
                record {
                  guarded = record { done = λ z. cc; harmless = (has, tt) };
                  admitted = λ z. has;
                }
    filled-IsKept write_nonce sent issued n bs d e size has =
        if-IsKept _ (not (n == nonce_length)) _ _ (λ x. dispose-IsKept _ _)
          λ x. record {
            guarded = record { done = λ z. cc; harmless = (tt, tt) };
            admitted = λ z. more sent [] has;
          }
    filled-IsKept read_info sent issued n bs d e size has =
        if-IsKept _ (not (n == info_length)) _ _ (λ x. dispose-IsKept _ _)
          λ x. record {
            guarded = record { done = λ z. cc; harmless = (more sent bs has, tt) };
            admitted = λ z. more sent bs has;
          }
    filled-IsKept write_info sent issued n bs d e size has =
        if-IsKept _ (not (n == info_length)) _ _ (λ x. dispose-IsKept _ _)
          λ x. record {
            guarded = record { done = λ z. more sent [] has; harmless = tt };
            admitted = λ z. subst (λ st. IsAdmittedAt st (sent ++ []) d) (sym e) (more sent [] has);
          }

    -- `Reaches sent d`: the calls so far have left `d`, and the client has sent these bytes. The buffer of
    -- the nonce is zeroed at first (what the info holds does not matter), and calls go on as long as the
    -- connection is not disposed of.
    pub data Reaches : Bytes → ListenerData → Type 0 where
      begins :
          (info : Bytes)
          → Reaches [] (record { state = start; nonce = zeros nonce_length; info = info })
      completes :
          {sent : Bytes} {d : ListenerData} (issued : Bool) (n : ℕ) (bs : Bytes)
          → Reaches sent d
          → IsCompletion d.state n bs
          → (cygwin_do_handshake own server_info issued n (fill bs d)).disposed ≡ false
          → Reaches
              (sent ++ received d.state bs)
              (cygwin_do_handshake own server_info issued n (fill bs d)).data_after

    state-fill_at : (st : State) (bs : Bytes) (d : ListenerData) → (fill_at st bs d).state ≡ d.state
    unfolding fill_at
    state-fill_at start bs d = refl
    state-fill_at read_nonce bs d = refl
    state-fill_at write_nonce bs d = refl
    state-fill_at read_info bs d = refl
    state-fill_at write_info bs d = refl

    call-IsKept :
        (sent : Bytes) (d : ListenerData) (issued : Bool) (n : ℕ) (bs : Bytes)
        → IsCompletion d.state n bs
        → IsAdmittedAt d.state sent d
        → IsKept
            (sent ++ received d.state bs)
            (cygwin_do_handshake own server_info issued n (fill bs d))
    unfolding cygwin_do_handshake fill
    call-IsKept sent d issued n bs size a =
        subst
          (λ st.
            IsKept (sent ++ received d.state bs)
              (cygwin_at own server_info st issued n (fill_at d.state bs d)))
          (sym (state-fill_at d.state bs d)) (filled-IsKept d.state sent issued n bs d refl size a)

    Reaches-IsAdmittedAt :
        (sent : Bytes) (d : ListenerData) → Reaches sent d → IsAdmittedAt d.state sent d
    Reaches-IsAdmittedAt _ _ (begins info) = (refl, refl)
    Reaches-IsAdmittedAt _ _ (completes {sent = sent} {d = d} issued n bs r size open_still) =
        (call-IsKept sent d issued n bs size (Reaches-IsAdmittedAt sent d r)).admitted open_still

    -- However the client and the system go on from the first call, a call of the Cygwin listener returns
    -- true, or writes anything (the nonce itself, or the process info), only if what the client has sent
    -- so far begins with the listener's nonce. A completed read transfers the bytes that the client sent,
    -- and no calls follow one that disposed of the connection.
    pub cygwin_do_handshake-IsGuarded :
        (sent : Bytes) (d : ListenerData) (issued : Bool) (n : ℕ) (bs : Bytes)
        → Reaches sent d
        → IsCompletion d.state n bs
        → IsGuarded
            (sent ++ received d.state bs)
            (cygwin_do_handshake own server_info issued n (fill bs d))
    cygwin_do_handshake-IsGuarded sent d issued n bs r size =
        (call-IsKept sent d issued n bs size (Reaches-IsAdmittedAt sent d r)).guarded

  libassuan_at_lem :
      (st : State) (issued : Bool) (n : ℕ) (d : ListenerData)
      → (libassuan_at own st issued n d).is_done ≡ true
      → (st ≡ read_nonce) × (n ≡ nonce_length) × (d.nonce ≡ own)
  unfolding libassuan_at issue dispose finish
  libassuan_at_lem read_nonce issued n d e = elim (Bool-cases (n == nonce_length)) [
    | inl size ↦ elim (Bool-cases (equal d.nonce own)) [
      | inl same ↦ (refl, ==→eq n nonce_length size, equal→eq d.nonce own same)
      | inr other ↦ absurd (cc)
    ]
    | inr short ↦ absurd (cc)
  ]
  libassuan_at_lem start issued n d e = cc
  libassuan_at_lem write_nonce issued n d e = cc
  libassuan_at_lem read_info issued n d e = cc
  libassuan_at_lem write_info issued n d e = cc

  -- A call of the libassuan listener returns true only when the read of the nonce has completed with
  -- all of its 16 bytes, and they are the listener's.
  pub libassuan_do_handshake_lem :
      (issued : Bool) (n : ℕ) (d : ListenerData)
      → (libassuan_do_handshake own issued n d).is_done ≡ true
      → (d.state ≡ read_nonce) × (n ≡ nonce_length) × (d.nonce ≡ own)
  unfolding libassuan_do_handshake
  libassuan_do_handshake_lem issued n d e = libassuan_at_lem d.state issued n d e
