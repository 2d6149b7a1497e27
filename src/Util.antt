-- ===== src/Util.antt =====
-- Text functions of src/util.cpp. A `std::wstring` is the list of its code units. `std::towlower`
-- belongs to the C library: it is a parameter.
use Prim.Native.Char.{code}
use Prim.Native.String.{String}
use ssh_agent_bridge.Base.{
  ℕ, Bool, true, false, ◌||◌, List, [], ◌∷◌, reverse, ◌==◌, if◌then◌else◌, length,
}

abbrev pub WideString : Type 0
WideString = List ℕ

-- The code units of an ASCII literal.
abbrev pub wide : String → WideString
wide String.[] = []
wide (String.◌∷◌ c s) = code c ∷ wide s

module _ (towlower : ℕ → ℕ) where
  -- The loop, over strings of one size.
  unfoldable pub equal_units : WideString → WideString → Bool
  equal_units (x ∷ xs) (y ∷ ys) = if towlower x == towlower y then equal_units xs ys else false
  equal_units _ _ = true

  unfoldable pub equal_string_ignore_case : WideString → WideString → Bool
  unfolding equal_units
  equal_string_ignore_case a b = if length a == length b then equal_units a b else false

-- The path read from its end: what stands before the last separator.
drop_name : WideString → WideString
drop_name [] = []
drop_name (c ∷ cs) = if c == b'\\' || c == b'/' then cs else drop_name cs

pub get_path_parent_directory : WideString → WideString
unfolding drop_name
get_path_parent_directory path = reverse (drop_name (reverse path))
