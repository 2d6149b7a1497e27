-- ===== src/Lxperm/Tests.antt =====
-- Runs on the attributes of a directory, and the witnesses.
use ssh_agent_bridge.Base.{◌≡◌, refl, arith, List, [], ◌∷◌}
use ssh_agent_bridge.Util.{wide}
use ssh_agent_bridge.Application.Setup.{LxPermissionInfo}
use ssh_agent_bridge.Lxperm.{EaInfo, max_entry, round_up, finish_ea_list}
use ssh_agent_bridge.Lxperm.Layout.{IsLaidOut, finish_ea_list-IsLaidOut}
use ssh_agent_bridge.Lxperm.Reading.{IsStorable, read_entries, read_entries-finish_ea_list}

abbrev owner_and_mode : List EaInfo
owner_and_mode =
    record { flags = 0; name = wide "$LXUID"; value = 232 ∷ 3 ∷ 0 ∷ 0 ∷ [] }
    ∷ record { flags = 0; name = wide "$LXMOD"; value = 128 ∷ 65 ∷ 0 ∷ 0 ∷ [] }
    ∷ []

buffer_size_example : (finish_ea_list owner_and_mode).buffer_size ≡ 40
unfolding finish_ea_list
buffer_size_example = refl

finish_ea_list-IsLaidOut_example : IsLaidOut owner_and_mode (finish_ea_list owner_and_mode)
finish_ea_list-IsLaidOut_example = finish_ea_list-IsLaidOut owner_and_mode

reads_owner_and_mode : read_entries 2 (finish_ea_list owner_and_mode).buffer ≡ owner_and_mode
unfolding round_up max_entry
reads_owner_and_mode =
    read_entries-finish_ea_list owner_and_mode (omega arith) (small, (small', tt))
  where
    small : IsStorable (record { flags = 0; name = wide "$LXUID"; value = 232 ∷ 3 ∷ 0 ∷ 0 ∷ [] })
    small = record { flags_fit = omega arith; name_fits = omega arith; value_fits = omega arith }

    small' : IsStorable (record { flags = 0; name = wide "$LXMOD"; value = 128 ∷ 65 ∷ 0 ∷ 0 ∷ [] })
    small' = record { flags_fit = omega arith; name_fits = omega arith; value_fits = omega arith }

abbrev mode_755 : LxPermissionInfo
mode_755 = record { uid = 1000; gid = 4294967295; mode = 493 }
