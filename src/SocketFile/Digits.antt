-- ===== src/SocketFile/Digits.antt =====
-- Decimal numbers are read back.
use ssh_agent_bridge.Base.{
  ℕ, zero, suc, ◌+◌, ◌-◌, ◌*◌, ◌/◌, ◌%◌, ◌<◌, ◌≡◌, refl, ap, ◌∙◌, true, false, [], ◌∷◌, ◌++◌,
  length, length-append, All, All-append, ltb, Bool-cases, inl, inr, arith,
}
use ssh_agent_bridge.Wire.{Bytes}
use ssh_agent_bridge.SocketFile.{decimal_in, decimal, is_digit, read_digits}

-- The number that digits spell behind `n`.
abbrev value_from : ℕ → Bytes → ℕ
value_from n [] = n
value_from n (c ∷ cs) = value_from (n * 10 + (c - b'0')) cs

abbrev pub IsDigit : ℕ → Type 0
IsDigit c = is_digit c ≡ true

value_from-append :
    (n d : ℕ) (cs : Bytes) → value_from n (cs ++ d ∷ []) ≡ value_from n cs * 10 + (d - b'0')
value_from-append n d [] = refl
value_from-append n d (c ∷ cs) = value_from-append (n * 10 + (c - b'0')) d cs

-- Digits are read up to the first character that is none.
pub read_digits-append :
    (n : ℕ) (cs : Bytes) (c : ℕ) (rest : Bytes)
    → All IsDigit cs
    → is_digit c ≡ false
    → read_digits false n (cs ++ c ∷ rest)
      ≡ record { negative = false; value = value_from n cs; rest = c ∷ rest }
unfolding read_digits
read_digits-append n [] c rest digits stop = rw stop refl
read_digits-append n (d ∷ cs) c rest digits stop =
    rw digits.0 (read_digits-append (n * 10 + (d - b'0')) cs c rest digits.1 stop)

-- The decimal number of `n` spells `n`, with a first digit.
record Spells (n : ℕ) (ds : Bytes) : Type 0 where
  value_is : value_from 0 ds ≡ n
  digits : All IsDigit ds
  some_digit : 0 < length ds

decimal_in-Spells : (fuel n : ℕ) → n < fuel → Spells n (decimal_in fuel n)
unfolding decimal_in
decimal_in-Spells zero n h = absurd (omega arith)
decimal_in-Spells (suc fuel) n h = elim (Bool-cases (ltb n 10)) [
  | inl small ↦ rw small (record {
    value_is = ground (arith, small);
    digits = (ground (arith, small), tt);
    some_digit = omega arith;
  })
  | inr large ↦
      let front = decimal_in-Spells fuel (n / 10) (ground (arith, large)) in
      let ds = decimal_in fuel (n / 10) in
      rw large (record {
        value_is = omega (arith, value_from-append 0 (b'0' + n % 10) ds, front.value_is);
        digits = All-append IsDigit ds ((b'0' + n % 10) ∷ []) front.digits (ground arith, tt);
        some_digit = omega (arith, length-append ds ((b'0' + n % 10) ∷ []));
      })
]

pub decimal-digits : (n : ℕ) → All IsDigit (decimal n) × (0 < length (decimal n))
unfolding decimal
decimal-digits n = let s = decimal_in-Spells (n + 1) n (omega arith) in (s.digits, s.some_digit)

pub read_digits-decimal :
    (n c : ℕ) (rest : Bytes)
    → is_digit c ≡ false
    → read_digits false 0 (decimal n ++ c ∷ rest)
      ≡ record { negative = false; value = n; rest = c ∷ rest }
unfolding decimal
read_digits-decimal n c rest stop =
    let s = decimal_in-Spells (n + 1) n (omega arith) in
    read_digits-append 0 (decimal n) c rest s.digits stop
    ∙ ap (λ v. record { negative = false; value = v; rest = c ∷ rest }) s.value_is
