-- ===== src/Ini/Termination.antt =====
-- The parser comes to an end: a round takes a character, or meets the end of the file.
use ssh_agent_bridge.Base.{
  ℕ, zero, suc, ◌+◌, ◌≤◌, ◌<◌, ◌≡◌, refl, Bool, true, false, not, ◌||◌, [], ◌∷◌, map, length,
  Option, none, some, ◌==◌, if◌then◌else◌, Bool-cases, inl, inr, ◌⊎◌, arith,
}
use ssh_agent_bridge.Util.{WideString, wide}
use ssh_agent_bridge.Ini.Maps.{find}
use ssh_agent_bridge.Ini.{
  IniSection, Parsing, Parsed, Round, returns, continues, cut_line, getline, ignore_line,
  find_first_of, is_empty, split_property, trim_string, drop_last, last?, put_section,
  start_section, read_name, read_section, put_property, read_property, read_other, read_at,
  read_line, finish, read_lines, parse_ini_file,
}

length-cut_line : (cs : WideString) → length (cut_line cs).behind ≤ length cs
unfolding cut_line
length-cut_line [] = omega arith
length-cut_line (c ∷ cs) = elim (Bool-cases (c == 10)) [
  | inl e ↦ rw e (omega arith)
  | inr e ↦ rw e (omega (arith, length-cut_line cs))
]

-- A line that has a character takes one.
length-cut_line_cons : (c : ℕ) (cs : WideString) → length (cut_line (c ∷ cs)).behind ≤ length cs
unfolding cut_line
length-cut_line_cons c cs = elim (Bool-cases (c == 10)) [
  | inl e ↦ rw e (omega arith)
  | inr e ↦ rw e (length-cut_line cs)
]

-- The round leaves the stream as `s` has it.
abbrev SameStream : Parsing → Parsing → Type 0
SameStream s s' = (s'.rest ≡ s.rest) × (s'.eof ≡ s.eof)

abbrev OnRound : (Parsing → Type 0) → Round → Type 0
OnRound P (returns ini) = Unit
OnRound P (continues s) = P s

if-OnRound :
    (P : Parsing → Type 0) (b : Bool) (x y : Round)
    → OnRound P x
    → OnRound P y
    → OnRound P (if b then x else y)
if-OnRound P true x y h k = h
if-OnRound P false x y h k = k

mono-OnRound :
    (Q P : Parsing → Type 0) (r : Round) → ((s : Parsing) → Q s → P s) → OnRound Q r → OnRound P r
mono-OnRound Q P (returns ini) f h = tt
mono-OnRound Q P (continues s) f h = f s h

-- The flag is set, or characters are taken.
abbrev Progress : Parsing → Parsing → Type 0
Progress s s' = (s'.eof ≡ true) ⊎ (length s'.rest < length s.rest)

getline-shorter :
    (s : Parsing) (c : ℕ) (cs : WideString)
    → s.rest ≡ c ∷ cs
    → s.eof ≡ false
    → length (getline s).rest < length s.rest
unfolding getline
getline-shorter s c cs e f = rw (f, e) (omega (arith, length-cut_line_cons c cs))

ignore_line-shorter :
    (s : Parsing) (c : ℕ) (cs : WideString)
    → s.rest ≡ c ∷ cs
    → s.eof ≡ false
    → length (ignore_line s).rest < length s.rest
unfolding ignore_line
ignore_line-shorter s c cs e f = rw (f, e) (omega (arith, length-cut_line_cons c cs))

module _ (iswblank : ℕ → Bool) (towlower : ℕ → ℕ) (moved_from : WideString → WideString) where
  put_section-SameStream :
      (found : Option IniSection) (name : WideString) (s : Parsing)
      → OnRound (SameStream s) (put_section iswblank towlower moved_from found name s)
  unfolding put_section
  put_section-SameStream (some x) name s = tt
  put_section-SameStream none name s = (refl, refl)

  read_name-SameStream :
      (back : Option ℕ) (line : WideString) (s : Parsing)
      → OnRound (SameStream s) (read_name iswblank towlower moved_from back line s)
  unfolding read_name start_section
  read_name-SameStream none line s = tt
  read_name-SameStream (some back) [] s = tt
  read_name-SameStream (some back) (front ∷ cs) s =
      let name = drop_last cs in
      if-OnRound (SameStream s) (not (front == b'[') || not (back == b']')) _ _ tt (
        if-OnRound (SameStream s) (find_first_of (wide "[]=;") name) _ _ tt (
          if-OnRound (SameStream s) (is_empty s.section_name) _ _ (refl, refl)
            (put_section-SameStream (find s.section_name s.ini) name s)))

  put_property-SameStream :
      (kv : Option (WideString × WideString)) (s : Parsing)
      → OnRound (SameStream s) (put_property iswblank towlower moved_from kv s)
  unfolding put_property
  put_property-SameStream none s = tt
  put_property-SameStream (some (k, v)) s =
      if-OnRound (SameStream s)
        (is_empty (map towlower (trim_string iswblank towlower moved_from k))) _ _ tt (refl, refl)

  read_property-SameStream :
      (s : Parsing) → OnRound (SameStream s) (read_property iswblank towlower moved_from s)
  unfolding read_property
  read_property-SameStream s =
      if-OnRound (SameStream s) (find_first_of (wide "[];") s.line) _ _ tt
        (put_property-SameStream (split_property s.line) s)

  read_other-Progress :
      (s t : Parsing)
      → Progress t (getline s)
      → OnRound (Progress t) (read_other iswblank towlower moved_from s)
  unfolding read_other
  read_other-Progress s t moved = if-OnRound (Progress t) (is_empty s.section_name) _ _ tt (
      mono-OnRound (SameStream (getline s)) (Progress t)
        (read_property iswblank towlower moved_from (getline s))
        (λ s' same. ended_or_shorter s' same moved) (read_property-SameStream (getline s)))
    where
      ended_or_shorter :
          (s' : Parsing) → SameStream (getline s) s' → Progress t (getline s) → Progress t s'
      ended_or_shorter s' same (inl over) = inl (rw same.1 over)
      ended_or_shorter s' same (inr less) = inr (rw same.0 less)

  read_at-Progress :
      (ws : WideString) (s : Parsing)
      → s.rest ≡ ws
      → s.eof ≡ false
      → OnRound (Progress s) (read_at iswblank towlower moved_from ws s)
  unfolding read_at read_section getline
  read_at-Progress [] s e f = read_other-Progress (record s { eof = true }) s (inl refl)
  read_at-Progress (c ∷ cs) s e f =
      if-OnRound (Progress s) (c == b'[') _ _
        (mono-OnRound (SameStream (getline s)) (Progress s)
          (read_section iswblank towlower moved_from (getline s))
          (λ s' same. inr (rw same.0 (getline-shorter s c cs e f)))
          (read_name-SameStream (last? (getline s).line) (getline s).line (getline s)))
        (if-OnRound (Progress s) (c == 10 || c == b';') (continues (ignore_line s))
          (read_other iswblank towlower moved_from s) (inr (ignore_line-shorter s c cs e f))
          (read_other-Progress s s (inr (getline-shorter s c cs e f))))

  -- Enough rounds: one more if the flag is set, else two more than there are characters.
  read_lines-total :
      (k : ℕ) (s : Parsing)
      → ((s.eof ≡ true) × (1 ≤ k)) ⊎ ((s.eof ≡ false) × (length s.rest + 2 ≤ k))
      → (r : Parsed) × (read_lines iswblank towlower moved_from k s ≡ some r)
  unfolding read_lines read_line
  read_lines-total zero s (inl (e, h)) = absurd (omega arith)
  read_lines-total zero s (inr (e, h)) = absurd (omega arith)
  read_lines-total (suc k) s (inl (e, h)) = (finish iswblank towlower moved_from s, rw e refl)
  read_lines-total (suc k) s (inr (e, h)) =
      of_round (read_at iswblank towlower moved_from s.rest s) refl
        (read_at-Progress s.rest s refl e) (λ s' enough. read_lines-total k s' enough)
    where
      of_round :
          (m : Round)
          → read_at iswblank towlower moved_from s.rest s ≡ m
          → OnRound (Progress s) m
          → ((s' : Parsing)
              → ((s'.eof ≡ true) × (1 ≤ k)) ⊎ ((s'.eof ≡ false) × (length s'.rest + 2 ≤ k))
              → (r : Parsed) × (read_lines iswblank towlower moved_from k s' ≡ some r))
          → (r : Parsed) × (read_lines iswblank towlower moved_from (suc k) s ≡ some r)
      of_round (returns ini) eq p ih = (record { ini = ini; status = false }, rw (eq, e) refl)
      of_round (continues s') eq p ih =
          let (r, done) = ih s' (enough (Bool-cases s'.eof) p) in (r, rw (eq, e) done)
        where
          enough :
              (s'.eof ≡ true) ⊎ (s'.eof ≡ false)
              → Progress s s'
              → ((s'.eof ≡ true) × (1 ≤ k)) ⊎ ((s'.eof ≡ false) × (length s'.rest + 2 ≤ k))
          enough (inl over) p = inl (over, omega arith)
          enough (inr open_still) (inl over) = absurd (cc)
          enough (inr open_still) (inr less) = inr (open_still, omega arith)

  -- Parsing ends with a result on every text: one round for each character and two more are enough.
  pub parse_ini_file-total :
      (text : WideString)
      → (r : Parsed) × (parse_ini_file iswblank towlower moved_from (some text) ≡ some r)
  unfolding parse_ini_file
  parse_ini_file-total text = read_lines-total (length text + 2) _ (inr (refl, omega arith))
