-- ===== src/Protodefs/Storage.antt =====
-- ipmi_protodefs.go: the storage commands (netfn 0x0a).
use Prim.Native.Nat.{ℕ}

abbrev pub get_fru_inventory_area_info_cmd : ℕ
get_fru_inventory_area_info_cmd = 0x10

abbrev pub read_fru_data_cmd : ℕ
read_fru_data_cmd = 0x11

abbrev pub write_fru_data_cmd : ℕ
write_fru_data_cmd = 0x12

abbrev pub get_sdr_repository_info_cmd : ℕ
get_sdr_repository_info_cmd = 0x20

abbrev pub get_sdr_repository_alloc_info_cmd : ℕ
get_sdr_repository_alloc_info_cmd = 0x21

abbrev pub reserve_sdr_repository_cmd : ℕ
reserve_sdr_repository_cmd = 0x22

abbrev pub get_sdr_cmd : ℕ
get_sdr_cmd = 0x23

abbrev pub add_sdr_cmd : ℕ
add_sdr_cmd = 0x24

abbrev pub partial_add_sdr_cmd : ℕ
partial_add_sdr_cmd = 0x25

abbrev pub delete_sdr_cmd : ℕ
delete_sdr_cmd = 0x26

abbrev pub clear_sdr_repository_cmd : ℕ
clear_sdr_repository_cmd = 0x27

abbrev pub get_sdr_repository_time_cmd : ℕ
get_sdr_repository_time_cmd = 0x28

abbrev pub set_sdr_repository_time_cmd : ℕ
set_sdr_repository_time_cmd = 0x29

abbrev pub enter_sdr_repository_update_cmd : ℕ
enter_sdr_repository_update_cmd = 0x2a

abbrev pub exit_sdr_repository_update_cmd : ℕ
exit_sdr_repository_update_cmd = 0x2b

abbrev pub run_initialization_agent_cmd : ℕ
run_initialization_agent_cmd = 0x2c

abbrev pub get_sel_info_cmd : ℕ
get_sel_info_cmd = 0x40

abbrev pub get_sel_allocation_info_cmd : ℕ
get_sel_allocation_info_cmd = 0x41

abbrev pub reserve_sel_cmd : ℕ
reserve_sel_cmd = 0x42

abbrev pub get_sel_entry_cmd : ℕ
get_sel_entry_cmd = 0x43

abbrev pub add_sel_entry_cmd : ℕ
add_sel_entry_cmd = 0x44

abbrev pub partial_add_sel_entry_cmd : ℕ
partial_add_sel_entry_cmd = 0x45

abbrev pub delete_sel_entry_cmd : ℕ
delete_sel_entry_cmd = 0x46

abbrev pub clear_sel_cmd : ℕ
clear_sel_cmd = 0x47

abbrev pub get_sel_time_cmd : ℕ
get_sel_time_cmd = 0x48

abbrev pub set_sel_time_cmd : ℕ
set_sel_time_cmd = 0x49

abbrev pub get_auxiliary_log_status_cmd : ℕ
get_auxiliary_log_status_cmd = 0x5a

abbrev pub set_auxiliary_log_status_cmd : ℕ
set_auxiliary_log_status_cmd = 0x5b
