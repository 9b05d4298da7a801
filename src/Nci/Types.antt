-- ===== src/Nci/Types.antt =====
-- src/nci/NfcNci.h, lines 39-405: the constants, records and state of the NCI layer.
use arduino_nfc.Common.{ℕ, ◌==◌, Bool}
use arduino_nfc.Common.Buffer.{Buf}

abbrev pub nci_packet_size : ℕ
nci_packet_size = 258

abbrev pub nci_msg_hdr_size : ℕ
nci_msg_hdr_size = 3

-- Message types and groups.
abbrev pub mt_data : ℕ
mt_data = 0

abbrev pub mt_cmd : ℕ
mt_cmd = 1

abbrev pub mt_rsp : ℕ
mt_rsp = 2

abbrev pub mt_ntf : ℕ
mt_ntf = 3

abbrev pub gid_core : ℕ
gid_core = 0

abbrev pub gid_rf_manage : ℕ
gid_rf_manage = 1

-- Status codes. A status byte is any uint8_t.
abbrev pub status_ok : ℕ
status_ok = 0x00

abbrev pub status_rejected : ℕ
status_rejected = 0x01

abbrev pub status_message_corrupted : ℕ
status_message_corrupted = 0x02

abbrev pub status_failed : ℕ
status_failed = 0x03

abbrev pub status_syntax_error : ℕ
status_syntax_error = 0x05

abbrev pub status_unknown_gid : ℕ
status_unknown_gid = 0x07

abbrev pub status_unknown_oid : ℕ
status_unknown_oid = 0x08

abbrev pub status_invalid_param : ℕ
status_invalid_param = 0x09

-- Opcodes of the core group and of the RF group.
abbrev pub core_reset : ℕ
core_reset = 0

abbrev pub core_init : ℕ
core_init = 1

abbrev pub core_conn_credits : ℕ
core_conn_credits = 6

abbrev pub rf_discover_map : ℕ
rf_discover_map = 0

abbrev pub rf_discover : ℕ
rf_discover = 3

abbrev pub rf_intf_activated : ℕ
rf_intf_activated = 5

abbrev pub rf_deactivate : ℕ
rf_deactivate = 6

-- Discovery types.
abbrev pub type_poll_a : ℕ
type_poll_a = 0

abbrev pub nfcid_length : ℕ
nfcid_length = 10

-- tNCI_RESET
pub record Reset : Type 0 where
  pub version : ℕ
  pub status : ℕ

-- tNCI_DEACTIVATE
pub record Deactivate : Type 0 where
  pub type : ℕ
  pub reason : ℕ

-- tNCI_DISCOVER_MAPS
pub record DiscoverMap : Type 0 where
  pub protocol : ℕ
  pub mode : ℕ
  pub intf_type : ℕ

-- tNCI_DISCOVER_CONFS
pub record DiscoverConf : Type 0 where
  pub mode : ℕ
  pub freq : ℕ

-- tNCI_RF_PARAMS_PA; `sens_res` has two entries, `nfcid` has `nfcid_length`
pub record ParamsPa : Type 0 where
  pub sens_res0 : ℕ
  pub sens_res1 : ℕ
  pub nfcid_len : ℕ
  pub nfcid : Buf
  pub sel_res_len : ℕ
  pub sel_res : ℕ

-- tNCI_RF_INTF; `specific.type` is `specific_type`, `specific.params.poll_a` is `poll_a`.
-- The code never touches its field `activation`.
pub record RfIntf : Type 0 where
  pub id : ℕ
  pub interface : ℕ
  pub protocol : ℕ
  pub activation_mode : ℕ
  pub max_payload_size : ℕ
  pub credits : ℕ
  pub specific_type : ℕ
  pub poll_a : ParamsPa
  pub exchange_mode : ℕ
  pub tx_bitrate : ℕ
  pub rx_bitrate : ℕ

-- tNFC_STATE
pub data NciState : Type 0 where
  state_none rfst_reset rfst_idle rfst_discovery rfst_w4_all_discoveries : NciState
  rfst_poll_active rfst_w4_host_select rfst_listen_sleep rfst_listen_active : NciState

-- The value of the enumerator.
abbrev pub code : NciState → ℕ
code state_none = 0
code rfst_reset = 1
code rfst_idle = 2
code rfst_discovery = 3
code rfst_w4_all_discoveries = 4
code rfst_poll_active = 5
code rfst_w4_host_select = 6
code rfst_listen_sleep = 7
code rfst_listen_active = 8

-- `s == t`
abbrev pub is : NciState → NciState → Bool
is s t = code s == code t

-- What `void *_data` points to.
pub data DataPtr : Type 0 where
  null at_reset at_rf_intf at_deactivate : DataPtr
  at_rx : ℕ → DataPtr

-- class NfcNci. `registered` is `_cb != NULL`; the pointers `_log` and `_hw` never change.
pub record NfcNci : Type 0 where
  pub registered : Bool
  pub rx_buf : Buf
  pub tx_buf : Buf
  pub state : NciState
  pub data_ptr : DataPtr
  pub reset : Reset
  pub rf_intf : RfIntf
  pub deactivate : Deactivate

-- The methods of class NfcNciCb.
pub data Callback : Type 0 where
  cb_core_reset cb_core_init cb_rf_discover_map cb_rf_discover cb_rf_discover_ntf : Callback
  cb_rf_deactivate cb_rf_deactivate_ntf cb_data cb_error : Callback

-- One call of a callback: each takes (uint8_t status, uint16_t id, void *data).
pub record Notice : Type 0 where
  pub callback : Callback
  pub status : ℕ
  pub id : ℕ
  pub data_ptr : DataPtr
