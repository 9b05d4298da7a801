-- ===== src/Nci/Constants.antt =====
-- src/nci/NfcNci.h, lines 185-270: the numbers that the layers name.
use arduino_nfc.Common.{ℕ}
use arduino_nfc.Nci.Types.{
  mt_rsp, mt_ntf, core_reset, core_init, rf_discover_map, rf_discover, rf_intf_activated,
  rf_deactivate,
}
use arduino_nfc.Nci.Header.{uint16_id}

-- Identifiers of messages.
abbrev pub id_rsp_core_reset : ℕ
id_rsp_core_reset = uint16_id mt_rsp core_reset

abbrev pub id_rsp_core_init : ℕ
id_rsp_core_init = uint16_id mt_rsp core_init

abbrev pub id_rsp_rf_discover_map : ℕ
id_rsp_rf_discover_map = uint16_id mt_rsp rf_discover_map

abbrev pub id_rsp_rf_discover : ℕ
id_rsp_rf_discover = uint16_id mt_rsp rf_discover

abbrev pub id_ntf_rf_intf_activated : ℕ
id_ntf_rf_intf_activated = uint16_id mt_ntf rf_intf_activated

abbrev pub id_rsp_rf_deactivate : ℕ
id_rsp_rf_deactivate = uint16_id mt_rsp rf_deactivate

abbrev pub id_ntf_rf_deactivate : ℕ
id_ntf_rf_deactivate = uint16_id mt_ntf rf_deactivate

-- Sizes of the parameters of commands, responses and notifications.
abbrev pub core_param_size_reset : ℕ
core_param_size_reset = 1

abbrev pub core_param_size_reset_rsp : ℕ
core_param_size_reset_rsp = 3

abbrev pub core_param_size_init : ℕ
core_param_size_init = 0

abbrev pub core_param_size_init_rsp : ℕ
core_param_size_init_rsp = 0x11

abbrev pub rf_param_size_discover_map_rsp : ℕ
rf_param_size_discover_map_rsp = 1

abbrev pub rf_param_size_discover_rsp : ℕ
rf_param_size_discover_rsp = 1

abbrev pub rf_param_size_intf_activated_ntf : ℕ
rf_param_size_intf_activated_ntf = 0x0B

abbrev pub rf_param_size_deactivate : ℕ
rf_param_size_deactivate = 1

abbrev pub rf_param_size_deactivate_rsp : ℕ
rf_param_size_deactivate_rsp = 1

abbrev pub rf_param_size_deactivate_ntf : ℕ
rf_param_size_deactivate_ntf = 2

-- Types of a reset and of a deactivation.
abbrev pub reset_type_keep_cfg : ℕ
reset_type_keep_cfg = 0

abbrev pub reset_type_reset_cfg : ℕ
reset_type_reset_cfg = 1

abbrev pub deactivate_type_discovery : ℕ
deactivate_type_discovery = 3

-- What a discovery is configured with.
abbrev pub protocol_t1t : ℕ
protocol_t1t = 1

abbrev pub protocol_t2t : ℕ
protocol_t2t = 2

abbrev pub protocol_t3t : ℕ
protocol_t3t = 3

abbrev pub interface_frame : ℕ
interface_frame = 1

abbrev pub interface_mode_poll : ℕ
interface_mode_poll = 1

abbrev pub discovery_type_poll_f : ℕ
discovery_type_poll_f = 2

abbrev pub discovery_frequency_always : ℕ
discovery_frequency_always = 1
