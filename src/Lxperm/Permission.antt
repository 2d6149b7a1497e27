-- ===== src/Lxperm/Permission.antt =====
-- What `SetLxPermissionByHandle` hands to the system.
use ssh_agent_bridge.Base.{
  ℕ, ◌+◌, ◌%◌, ◌/◌, ◌^◌, ◌≤◌, ◌<◌, ◌≡◌, Bool, List, [], ◌∷◌, length, Option, none, some, All, ltb,
  equal, if◌then◌else◌,
}
use ssh_agent_bridge.Util.{wide}
use ssh_agent_bridge.Wire.{Bytes}
use ssh_agent_bridge.Wire.Words.{store_le}
use ssh_agent_bridge.Application.Setup.{LxPermissionInfo}
use ssh_agent_bridge.Lxperm.{EaInfo, max_entry}
use ssh_agent_bridge.Lxperm.Reading.{IsStorable}

-- Attributes that fit in an entry of 20 bytes.
abbrev AreSmall : List EaInfo → Type 0
AreSmall eas = All IsStorable eas × (max_entry eas ≤ 20)

-- The value that a list of attributes has for a name.
abbrev pub value_of : Bytes → List EaInfo → Option Bytes
value_of name [] = none
value_of name (ea ∷ eas) = if equal name ea.name then some ea.value else value_of name eas

-- A field of the permission is given unless it is negative as an `int`.
abbrev pub IsGiven : ℕ → Type 0
IsGiven v = v < 2 ^ 31

abbrev pub one_if_given : ℕ → ℕ
one_if_given v = if ltb v (2 ^ 31) then 1 else 0

abbrev pub fields_given : LxPermissionInfo → ℕ
fields_given perm = one_if_given perm.uid + one_if_given perm.gid + one_if_given perm.mode

-- The list has this number for the name, or the number is negative and the name is not in the list.
abbrev pub HasNumber : Bytes → ℕ → List EaInfo → Type 0
HasNumber name v eas =
    (IsGiven v → value_of name eas ≡ some (store_le 4 v))
    × (¬ (IsGiven v) → value_of name eas ≡ none)

-- A mode, as Linux splits it: the low nine bits are the permission's, the three above them are clear, and
-- the type of the file is 4 for a directory and 8 for a regular file.
pub record IsMode (is_directory : Bool) (mode v : ℕ) : Type 0 where
  pub permission : v % 4096 ≡ mode % 512
  pub file_type : v / 4096 ≡ (if is_directory then 4 else 8)

-- The attributes that WSL is to see.
pub record Describes (is_directory : Bool) (perm : LxPermissionInfo) (eas : List EaInfo)
    : Type 0 where
  pub owner : HasNumber (wide "$LXUID") perm.uid eas
  pub group : HasNumber (wide "$LXGID") perm.gid eas
  pub mode :
      IsGiven perm.mode
      → (v : ℕ) × (value_of (wide "$LXMOD") eas ≡ some (store_le 4 v))
        × IsMode is_directory perm.mode v
  pub no_mode : ¬ (IsGiven perm.mode) → value_of (wide "$LXMOD") eas ≡ none
  pub nothing_else : length eas ≡ fields_given perm
