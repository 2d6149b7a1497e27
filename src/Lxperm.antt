-- ===== src/Lxperm.antt =====
-- src/lxperm.cpp: the owner and mode that WSL sees of a file are extended attributes, which
-- `EaInfoBuilder` lays out in a buffer for `NtSetEaFile`. The buffer is its list of bytes; words are
-- stored with the least significant byte first. An allocation that is not written holds zeros
-- (`make_unique<char[]>`).
pub mod Layout
pub mod Reading
pub mod Permission
mod Tests
use ssh_agent_bridge.Base.{
  ℕ, zero, suc, ◌+◌, ◌-◌, ◌*◌, ◌/◌, ◌%◌, ◌^◌, Bool, true, false, List, [], ◌∷◌, ◌++◌, Option, none,
  some, length, ltb, leb, ◌==◌, if◌then◌else◌,
}
use ssh_agent_bridge.Util.{wide}
use ssh_agent_bridge.Wire.{Bytes}
use ssh_agent_bridge.Wire.Words.{store_le}
use ssh_agent_bridge.Application.Setup.{LxPermissionInfo}

-- `EaInfo`
pub record EaInfo : Type 0 where
  pub flags : ℕ
  pub name : Bytes
  pub value : Bytes

-- `alignof(LONG)`, and the size of the packed `FILE_FULL_EA_INFORMATION`, with one byte of the name.
abbrev pub align : ℕ
align = 4

abbrev pub header_size : ℕ
header_size = 9

abbrev pub max : ℕ → ℕ → ℕ
max a b = if ltb a b then b else a

-- The largest entry.
unfoldable pub max_entry : List EaInfo → ℕ
max_entry [] = 0
max_entry (ea ∷ eas) = max (max_entry eas) (header_size + length ea.name + length ea.value)

-- `while (maxSize % ALIGN) ++maxSize`: three rounds are enough.
unfoldable pub align_up : ℕ → ℕ → ℕ
align_up zero n = n
align_up (suc k) n = let more = align_up k (n + 1) in if n % align == 0 then n else more

unfoldable pub round_up : ℕ → ℕ
unfolding align_up
round_up n = align_up 3 n

abbrev pub zeros : ℕ → Bytes
zeros zero = []
zeros (suc n) = 0 ∷ zeros n

-- One entry: its header, the name with the zero behind it, and the value. `BYTE` and `USHORT` sizes
-- are cut off.
unfoldable pub entry : ℕ → EaInfo → Bytes
unfolding store_le
entry next ea =
    store_le 4 next
    ++ store_le 1 ea.flags
    ++ store_le 1 (length ea.name)
    ++ store_le 2 (length ea.value)
    ++ ea.name
    ++ 0 ∷ ea.value

-- The loop: each entry stands at a multiple of `max_size`, and the last one has no next.
unfoldable pub entries : ℕ → List EaInfo → Bytes
unfolding entry
entries max_size [] = []
entries max_size (ea ∷ []) = let e = entry 0 ea in e ++ zeros (max_size - length e)
entries max_size (ea ∷ eb ∷ eas) =
    let e = entry max_size ea in e ++ zeros (max_size - length e) ++ entries max_size (eb ∷ eas)

-- `FinishEaList`: the buffer behind the aligned base, and its size.
pub record EaList : Type 0 where
  pub buffer : Bytes
  pub buffer_size : ℕ

unfoldable pub finish_ea_list : List EaInfo → EaList
unfolding max_entry round_up entries
finish_ea_list eas =
    let max_size = round_up (max_entry eas) in
    record { buffer = entries max_size eas; buffer_size = max_size * length eas }

-- `MakeByteString<ULONG>`
abbrev pub make_byte_string : ℕ → Bytes
make_byte_string v = store_le 4 v

-- An `int` field that is not negative, by its 32-bit pattern.
unfoldable pub emit_if : Bool → Bytes → ℕ → List EaInfo → List EaInfo
emit_if b name v eas =
    if b then record { flags = 0; name = name; value = make_byte_string v } ∷ eas else eas

-- `perm.mode & 0777`, with `S_IFDIR` or `S_IFREG`.
unfoldable pub real_mode : Bool → ℕ → ℕ
real_mode is_directory mode = mode % 512 + (if is_directory then 16384 else 32768)

unfoldable pub attributes : Bool → LxPermissionInfo → List EaInfo
unfolding emit_if real_mode
attributes is_directory perm = emit_if (ltb perm.uid (2 ^ 31)) (wide "$LXUID") perm.uid (
    emit_if (ltb perm.gid (2 ^ 31)) (wide "$LXGID") perm.gid
      (emit_if (ltb perm.mode (2 ^ 31)) (wide "$LXMOD") (real_mode is_directory perm.mode) []))

-- `SetLxPermissionByHandle`, once the functions of ntdll are found and the file's attributes are
-- read: what it hands to `NtSetEaFile`, if anything, and its result by the status of that call.
pub record LxResult : Type 0 where
  pub handed_over : Option EaList
  pub status : Bool

unfoldable pub set_attributes : List EaInfo → Bool → LxResult
unfolding finish_ea_list
set_attributes [] ok = record { handed_over = none; status = true }
set_attributes (ea ∷ eas) ok = record {
  handed_over = some (finish_ea_list (ea ∷ eas));
  status = ok;
}

unfoldable pub set_lx_permission_by_handle : Option Bool → Bool → LxPermissionInfo → LxResult
unfolding attributes set_attributes
set_lx_permission_by_handle none ok perm = record { handed_over = none; status = false }
set_lx_permission_by_handle (some is_directory) ok perm =
    set_attributes (attributes is_directory perm) ok
