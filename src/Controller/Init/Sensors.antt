-- ===== src/Controller/Init/Sensors.antt =====
-- The four simulated sensors of `bmcInit` of bmc.go: their numbers, their names and the arguments of
-- `mainSdrAdd`.
use ipmigod.Base.{ℕ, ◌+◌, ◌*◌, ◌%◌, ◌^◌, [], ◌∷◌}
use ipmigod.Wire.{Bytes}
use ipmigod.Controller.{SdrArgs}

-- `sensorNum` of the simulated sensor `k`, and the name under the card's digit.
abbrev pub sensor_number : ℕ → ℕ → ℕ
sensor_number card k = (k + 16 * card) % 2 ^ 8

abbrev pub sensor_name : ℕ → Bytes → Bytes
sensor_name card name = ((b'0' + card) % 2 ^ 8) ∷ name

-- The arguments of `mainSdrAdd` for the simulated sensor 1.
abbrev pub temp_args : ℕ → SdrArgs
temp_args card = record {
  bmc = 0x20;
  record_id = 0x0001;
  sdr_vers = 0x51;
  record_type = 1;
  record_length = 0x32;
  sensor_owner_id = 0x20;
  sensor_owner_lun = 0;
  sensor_num = sensor_number card 1;
  entity_id = 3;
  entity_instance = card;
  sensor_init = 0x67;
  sensor_caps = 0x88;
  sensor_type = 1;
  event_code = 1;
  ass_lthr_mask = 0xc00f;
  deass_hthr_mask = 0xc07f;
  dr_st_rd_mask = 0x3838;
  sensor_units1 = 0;
  sensor_units2 = 1;
  sensor_units3 = 0;
  linear = 0;
  m = 1;
  m_tol = 0;
  b = 0;
  b_acc = 0;
  acc_dir = 0;
  rexp_bexp = 0;
  anlog_flags = 3;
  nom_reading = 0x60;
  norm_max = 0xb0;
  norm_min = 0;
  sensor_max = 0xb0;
  sensor_min = 0;
  upper_nc_thr = 0xa0;
  upper_cr_thr = 0x90;
  upper_ncr_thr = 0x66;
  lower_nr_thr = 0;
  lower_cr_thr = 0;
  lower_ncr_thr = 0;
  pg_thr_hyst = 0;
  ng_thr_hyst = 0;
  res1 = 0;
  res2 = 0;
  oem = 0;
  id_str_lght_code = 0xc7;
  id_str = sensor_name card (b'D' ∷ b'J' ∷ b't' ∷ b'e' ∷ b'm' ∷ b'p' ∷ []);
}

-- The arguments of `mainSdrAdd` for the simulated sensor 2.
abbrev pub voltage_args : ℕ → SdrArgs
voltage_args card = record {
  bmc = 0x20;
  record_id = 0x0002;
  sdr_vers = 0x51;
  record_type = 1;
  record_length = 0x35;
  sensor_owner_id = 0x20;
  sensor_owner_lun = 0;
  sensor_num = sensor_number card 2;
  entity_id = 3;
  entity_instance = card;
  sensor_init = 0x67;
  sensor_caps = 0x88;
  sensor_type = 2;
  event_code = 1;
  ass_lthr_mask = 0xc00f;
  deass_hthr_mask = 0xc07f;
  dr_st_rd_mask = 0x3838;
  sensor_units1 = 0;
  sensor_units2 = 4;
  sensor_units3 = 0;
  linear = 0;
  m = 1;
  m_tol = 0;
  b = 0;
  b_acc = 0;
  acc_dir = 0;
  rexp_bexp = 0;
  anlog_flags = 3;
  nom_reading = 0;
  norm_max = 0;
  norm_min = 0x0d;
  sensor_max = 0x10;
  sensor_min = 0x0c;
  upper_nc_thr = 0x0f;
  upper_cr_thr = 0x0e;
  upper_ncr_thr = 0x0d;
  lower_nr_thr = 0;
  lower_cr_thr = 0;
  lower_ncr_thr = 0;
  pg_thr_hyst = 0;
  ng_thr_hyst = 0;
  res1 = 0;
  res2 = 0;
  oem = 0;
  id_str_lght_code = 0xca;
  id_str = sensor_name card (b'M' ∷ b'X' ∷ b'v' ∷ b'o' ∷ b'l' ∷ b't' ∷ b'a' ∷ b'g' ∷ b'e' ∷ []);
}

-- The arguments of `mainSdrAdd` for the simulated sensor 3.
abbrev pub current_args : ℕ → SdrArgs
current_args card = record {
  bmc = 0x20;
  record_id = 0x0003;
  sdr_vers = 0x51;
  record_type = 1;
  record_length = 0x35;
  sensor_owner_id = 0x20;
  sensor_owner_lun = 0;
  sensor_num = sensor_number card 3;
  entity_id = 3;
  entity_instance = card;
  sensor_init = 0x67;
  sensor_caps = 0x88;
  sensor_type = 3;
  event_code = 1;
  ass_lthr_mask = 0xc00f;
  deass_hthr_mask = 0xc07f;
  dr_st_rd_mask = 0x3838;
  sensor_units1 = 0;
  sensor_units2 = 5;
  sensor_units3 = 0;
  linear = 0;
  m = 1;
  m_tol = 0;
  b = 0;
  b_acc = 0;
  acc_dir = 0;
  rexp_bexp = 0;
  anlog_flags = 3;
  nom_reading = 0;
  norm_max = 0;
  norm_min = 3;
  sensor_max = 6;
  sensor_min = 5;
  upper_nc_thr = 7;
  upper_cr_thr = 6;
  upper_ncr_thr = 5;
  lower_nr_thr = 0;
  lower_cr_thr = 0;
  lower_ncr_thr = 0;
  pg_thr_hyst = 0;
  ng_thr_hyst = 0;
  res1 = 0;
  res2 = 0;
  oem = 0;
  id_str_lght_code = 0xca;
  id_str = sensor_name card (b'M' ∷ b'X' ∷ b'c' ∷ b'u' ∷ b'r' ∷ b'r' ∷ b'e' ∷ b'n' ∷ b't' ∷ []);
}

-- The arguments of `mainSdrAdd` for the simulated sensor 4.
abbrev pub fan_args : ℕ → SdrArgs
fan_args card = record {
  bmc = 0x20;
  record_id = 0x0004;
  sdr_vers = 0x51;
  record_type = 1;
  record_length = 0x35;
  sensor_owner_id = 0x20;
  sensor_owner_lun = 0;
  sensor_num = sensor_number card 4;
  entity_id = 3;
  entity_instance = card;
  sensor_init = 0x67;
  sensor_caps = 0x88;
  sensor_type = 4;
  event_code = 1;
  ass_lthr_mask = 0xc00f;
  deass_hthr_mask = 0xc07f;
  dr_st_rd_mask = 0x3838;
  sensor_units1 = 4;
  sensor_units2 = 0x12;
  sensor_units3 = 0x0a;
  linear = 0;
  m = 1;
  m_tol = 0;
  b = 0;
  b_acc = 0;
  acc_dir = 0;
  rexp_bexp = 0;
  anlog_flags = 3;
  nom_reading = 0;
  norm_max = 0;
  norm_min = 0x28;
  sensor_max = 0x50;
  sensor_min = 0x32;
  upper_nc_thr = 0x46;
  upper_cr_thr = 0x3c;
  upper_ncr_thr = 0;
  lower_nr_thr = 0;
  lower_cr_thr = 0;
  lower_ncr_thr = 0;
  pg_thr_hyst = 0;
  ng_thr_hyst = 0;
  res1 = 0;
  res2 = 0;
  oem = 0;
  id_str_lght_code = 0xca;
  id_str = sensor_name card (b'F' ∷ b'X' ∷ b'f' ∷ b'a' ∷ b'n' ∷ b'r' ∷ b'e' ∷ b'a' ∷ b'd' ∷ []);
}
