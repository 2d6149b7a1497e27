-- ===== src/Lxperm/Layout.antt =====
-- The entries fit, and the buffer has the size that is announced.
use ssh_agent_bridge.Base.{
  ℕ, zero, suc, ◌+◌, ◌-◌, ◌*◌, ◌%◌, ◌≤◌, ◌≡◌, refl, ap, List, [], ◌∷◌, ◌++◌, length, length-append,
  All, arith,
}
use native.Mathlib.Nat.{mul-suc}
use ssh_agent_bridge.Lxperm.{
  EaInfo, align, header_size, max, max_entry, round_up, align_up, zeros, entry, entries, EaList,
  finish_ea_list,
}

abbrev pub size : EaInfo → ℕ
size ea = header_size + length ea.name + length ea.value

pub length-zeros : (n : ℕ) → length (zeros n) ≡ n
length-zeros zero = refl
length-zeros (suc n) = ap suc (length-zeros n)

pub length-entry : (next : ℕ) (ea : EaInfo) → length (entry next ea) ≡ size ea
unfolding entry
length-entry next ea = omega (arith, length-append ea.name (0 ∷ ea.value))

max-le : (a b : ℕ) → (a ≤ max a b) × (b ≤ max a b)
max-le a b = ground arith

round_up-le : (n : ℕ) → n ≤ round_up n
unfolding round_up align_up
round_up-le n = ground arith

All-mono :
    {P Q : EaInfo → Type 0} (eas : List EaInfo)
    → ((ea : EaInfo) → P ea → Q ea)
    → All P eas
    → All Q eas
All-mono [] f h = tt
All-mono (ea ∷ eas) f h = (f ea h.0, All-mono eas f h.1)

max_entry-le : (eas : List EaInfo) → All (λ ea. size ea ≤ max_entry eas) eas
unfolding max_entry
max_entry-le [] = tt
max_entry-le (ea ∷ eas) =
    let m = max-le (max_entry eas) (size ea) in
    (m.1, All-mono eas (λ eb h. omega (arith, h, m.0)) (max_entry-le eas))

length-entries :
    (m : ℕ) (eas : List EaInfo)
    → All (λ ea. size ea ≤ m) eas
    → length (entries m eas) ≡ m * length eas
unfolding entries
length-entries m [] h = omega arith
length-entries m (ea ∷ []) h =
    let e = entry 0 ea in
    omega (
      arith,
      length-append e (zeros (m - length e)),
      length-zeros (m - length e),
      length-entry 0 ea,
      h.0,
    )
length-entries m (ea ∷ eb ∷ eas) h =
    let e = entry m ea in
    let rest = entries m (eb ∷ eas) in
    let slot = e ++ zeros (m - length e) in
    omega (
      arith,
      mul-suc m (length (eb ∷ eas)),
      length-append slot rest,
      length-append e (zeros (m - length e)),
      length-zeros (m - length e),
      length-entry m ea,
      h.0,
      length-entries m (eb ∷ eas) h.1,
    )

-- How the finished list lies in its buffer.
pub record IsLaidOut (eas : List EaInfo) (l : EaList) : Type 0 where
  pub filled : length l.buffer ≡ l.buffer_size
  pub aligned : round_up (max_entry eas) % align ≡ 0
  pub fits : All (λ ea. size ea ≤ round_up (max_entry eas)) eas

-- Whatever the attributes, the buffer is filled up to exactly the size that is handed to the system, the
-- entries stand on multiples of four bytes, and none is larger than its slot.
pub finish_ea_list-IsLaidOut : (eas : List EaInfo) → IsLaidOut eas (finish_ea_list eas)
unfolding finish_ea_list round_up align_up
finish_ea_list-IsLaidOut eas =
    let slots =
      All-mono eas (λ ea h. omega (arith, h, round_up-le (max_entry eas))) (max_entry-le eas) in
    record {
      filled = length-entries (round_up (max_entry eas)) eas slots;
      aligned = aligned_up (max_entry eas);
      fits = slots;
    }
  where
    aligned_up : (n : ℕ) → round_up n % align ≡ 0
    aligned_up n = ground arith
