-- ===== src/Lxperm/Reading.antt =====
-- What a reader of the list finds in the buffer.
use ssh_agent_bridge.Base.{
  ℕ, suc, ◌-◌, ◌%◌, ◌^◌, ◌≤◌, ◌<◌, ◌≡◌, refl, sym, subst, ap, ◌∙◌, false, List, [], ◌∷◌, ◌++◌,
  append_assoc, length, length-append, take, drop, take-append, drop-append, All, arith, ◌==◌,
  if◌then◌else◌,
}
use ssh_agent_bridge.Wire.{Bytes}
use ssh_agent_bridge.Wire.Words.{store_le, load_le, load_le-store_le}
use ssh_agent_bridge.Lxperm.{EaInfo, max_entry, round_up, zeros, entry, entries, finish_ea_list}
use ssh_agent_bridge.Lxperm.Layout.{size, length-zeros, length-entry, finish_ea_list-IsLaidOut}

-- The name and the value behind the eight bytes of a header.
abbrev read_fields : ℕ → ℕ → ℕ → Bytes → EaInfo
read_fields flags name_length value_length bs = record {
  flags = flags;
  name = take name_length bs;
  value = take value_length (drop (suc name_length) bs);
}

-- The list as its format is documented: a header, and the offset of the next entry, or zero.
abbrev pub read_entries : ℕ → Bytes → List EaInfo
read_entries (suc fuel) (n0 ∷ n1 ∷ n2 ∷ n3 ∷ flags ∷ name_length ∷ v0 ∷ v1 ∷ bs) =
    let next = load_le (n0 ∷ n1 ∷ n2 ∷ n3 ∷ []) in
    let rest =
      read_entries fuel (drop next (n0 ∷ n1 ∷ n2 ∷ n3 ∷ flags ∷ name_length ∷ v0 ∷ v1 ∷ bs)) in
    read_fields flags name_length (load_le (v0 ∷ v1 ∷ [])) bs ∷ (if next == 0 then [] else rest)
read_entries fuel bs = []

-- An entry whose sizes and flags fit in their fields.
pub record IsStorable (ea : EaInfo) : Type 0 where
  pub flags_fit : ea.flags < 256
  pub name_fits : length ea.name < 256
  pub value_fits : length ea.value < 65536

drop-suc : (xs ys : Bytes) (y : ℕ) → drop (suc (length xs)) (xs ++ (y ∷ ys)) ≡ ys
drop-suc [] ys y = refl
drop-suc (x ∷ xs) ys y = drop-suc xs ys y

-- The fields of an entry, whatever stands behind it.
read_fields-entry :
    (ea : EaInfo) (rest : Bytes)
    → read_fields ea.flags (length ea.name) (length ea.value) (ea.name ++ 0 ∷ ea.value ++ rest) ≡ ea
read_fields-entry ea rest =
    rw
      (
        append_assoc ea.name (0 ∷ ea.value) rest,
        take-append ea.name (0 ∷ ea.value ++ rest),
        drop-suc ea.name (ea.value ++ rest) 0,
        take-append ea.value rest,
      )
      refl

same_tail : {a b : EaInfo} (eas : List EaInfo) → a ≡ b → a ∷ eas ≡ b ∷ eas
same_tail eas e = ap (λ c. c ∷ eas) e

-- A slot is read as its entry, and then what stands at its offset.
slot_lem :
    (fuel next : ℕ) (ea : EaInfo) (rest : Bytes)
    → next < 2 ^ 32
    → IsStorable ea
    → read_entries (suc fuel) (entry next ea ++ rest)
      ≡ ea ∷ (if next == 0 then [] else read_entries fuel (drop next (entry next ea ++ rest)))
unfolding entry
slot_lem fuel next ea rest h s =
    let offset : load_le (store_le 4 next) ≡ next = load_le-store_le 4 next h in
    let width : load_le (store_le 2 (length ea.value)) ≡ length ea.value =
      load_le-store_le 2 (length ea.value) s.value_fits in
    let flags : ea.flags % 256 ≡ ea.flags = omega (arith, s.flags_fit) in
    let name : length ea.name % 256 ≡ length ea.name = omega (arith, s.name_fits) in
    rw (offset, width, flags, name) (same_tail _ (read_fields-entry ea rest))

-- What stands behind a slot of `m` bytes.
drop-slot :
    (m : ℕ) (ea : EaInfo) (rest : Bytes)
    → size ea ≤ m
    → drop m (entry m ea ++ (zeros (m - length (entry m ea)) ++ rest)) ≡ rest
drop-slot m ea rest h =
    let e = entry m ea in
    let slot = e ++ zeros (m - length e) in
    let filled : length slot ≡ m = omega (
      arith,
      length-append e (zeros (m - length e)),
      length-zeros (m - length e),
      length-entry m ea,
      h,
    ) in
    rw (sym (append_assoc e (zeros (m - length e)) rest))
      (subst (λ n. drop n (slot ++ rest) ≡ rest) filled (drop-append slot rest))

read_entries-entries :
    (m : ℕ) (eas : List EaInfo)
    → m < 2 ^ 32
    → All (λ ea. size ea ≤ m) eas
    → All IsStorable eas
    → read_entries (length eas) (entries m eas) ≡ eas
unfolding entries
read_entries-entries m [] b h s = refl
read_entries-entries m (ea ∷ []) b h s =
    slot_lem 0 0 ea (zeros (m - length (entry 0 ea))) (omega arith) s.0
read_entries-entries m (ea ∷ eb ∷ eas) b h s =
    let rest = entries m (eb ∷ eas) in
    let more : (m == 0) ≡ false = ground (arith, h.0) in
    let behind = drop-slot m ea rest h.0 in
    let ih = read_entries-entries m (eb ∷ eas) b h.1 s.1 in
    let z = zeros (m - length (entry m ea)) in
    ap (read_entries (suc (suc (length eas)))) (append_assoc (entry m ea) z rest)
    ∙ slot_lem (length (eb ∷ eas)) m ea (z ++ rest) b s.0
    ∙ rw (more, behind) (ap (◌∷◌ ea) ih)

-- The buffer of `FinishEaList` is read back as the attributes that were emitted, in their order: each
-- entry is found at the offset that the one before it names, with its flags, its name and its value.
-- This is for attributes whose flags, name and value have sizes that fit in the fields of an entry,
-- where a slot is smaller than 2^32 bytes, and a reader that looks for as many entries as were emitted.
pub read_entries-finish_ea_list :
    (eas : List EaInfo)
    → round_up (max_entry eas) < 2 ^ 32
    → All IsStorable eas
    → read_entries (length eas) (finish_ea_list eas).buffer ≡ eas
unfolding finish_ea_list
read_entries-finish_ea_list eas b s =
    read_entries-entries (round_up (max_entry eas)) eas b (finish_ea_list-IsLaidOut eas).fits s
