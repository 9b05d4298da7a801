-- ===== src/Nci/Responses.antt =====
-- src/nci/NfcNci.cpp: the handlers of responses and notifications. Each is given the index `p` in
-- `_rx_buf` that its argument `buf` points to, and gives its uint8_t status and the object.
use arduino_nfc.Common.{ℕ, ◌+◌, ◌==◌, if◌then◌else◌, not, ltb}
use arduino_nfc.Common.Outcome.{Outcome, done, ◌>>=◌}
use arduino_nfc.Common.Buffer.{Buf, load, load_all, store_all}
use arduino_nfc.Nci.Constants.{
  core_param_size_reset_rsp, core_param_size_init_rsp, rf_param_size_discover_map_rsp,
  rf_param_size_discover_rsp, rf_param_size_intf_activated_ntf, rf_param_size_deactivate_rsp,
  rf_param_size_deactivate_ntf,
}
use arduino_nfc.Nci.Types.{
  nci_packet_size, status_ok, status_rejected, status_syntax_error, type_poll_a, nfcid_length,
  ParamsPa, RfIntf, state_none, rfst_reset, rfst_idle, rfst_discovery, rfst_poll_active, is, null,
  at_reset, at_rf_intf, at_deactivate, NfcNci,
}

-- `_rx_buf[p]`
abbrev pub rx : NfcNci → ℕ → Outcome ℕ
rx n p = load nci_packet_size n.rx_buf p

unfoldable pub rsp_core_reset : ℕ → NfcNci → Outcome (ℕ × NfcNci)
rsp_core_reset p n = if not (is n.state state_none) then done (status_rejected, n) else (do
  len ← rx n p
  if not (len == core_param_size_reset_rsp) then done (status_syntax_error, n) else (do
    status ← rx n (p + 1)
    if not (status == status_ok) then done (status, n) else (do
      version ← rx n (p + 2)
      config ← rx n (p + 3)
      done (
        status,
        record n {
          reset = record { version = version; status = config };
          data_ptr = at_reset;
          state = rfst_reset;
        },
      ))))

unfoldable pub rsp_core_init : ℕ → NfcNci → Outcome (ℕ × NfcNci)
rsp_core_init p n = if not (is n.state rfst_reset) then done (status_rejected, n) else (do
  len ← rx n p
  if ltb len core_param_size_init_rsp then done (status_syntax_error, n) else (do
    status ← rx n (p + 1)
    done (
        if not (status == status_ok)
        then (status, n)
        else (status, record n { data_ptr = null; state = rfst_idle }))))

unfoldable pub rsp_rf_discover_map : ℕ → NfcNci → Outcome (ℕ × NfcNci)
rsp_rf_discover_map p n = if not (is n.state rfst_idle) then done (status_rejected, n) else (do
  len ← rx n p
  if not (len == rf_param_size_discover_map_rsp)
      then done (status_syntax_error, n)
      else (do status ← rx n (p + 1); done (status, record n { data_ptr = null })))

unfoldable pub rsp_rf_discover : ℕ → NfcNci → Outcome (ℕ × NfcNci)
rsp_rf_discover p n = if not (is n.state rfst_idle) then done (status_rejected, n) else (do
  len ← rx n p
  if not (len == rf_param_size_discover_rsp) then done (status_syntax_error, n) else (do
    status ← rx n (p + 1)
    done (
        if not (status == status_ok)
        then (status, n)
        else (status, record n { state = rfst_discovery; data_ptr = null }))))

-- `memcpy` of `len` bytes to `nfcid` and the two fields after it.
unfoldable pub set_nfcid : Buf → ℕ → ParamsPa → Outcome ParamsPa
set_nfcid b p pa = do
  len ← load nci_packet_size b p
  bytes ← load_all nci_packet_size b (p + 1) len
  nfcid ← store_all nfcid_length pa.nfcid 0 bytes
  sel_res_len ← load nci_packet_size b (p + 1 + len)
  let pa' = record pa { nfcid_len = len; nfcid = nfcid; sel_res_len = sel_res_len }
  if not (sel_res_len == 0)
      then (do
        sel_res ← load nci_packet_size b (p + 2 + len)
        done (record pa' { sel_res = sel_res }))
      else done pa'

-- `setRfTechSpecParams`
unfoldable pub set_rf_tech_spec_params : Buf → ℕ → RfIntf → Outcome RfIntf
set_rf_tech_spec_params b p rf =
    if rf.activation_mode == type_poll_a
    then (do
      sens_res0 ← load nci_packet_size b p
      sens_res1 ← load nci_packet_size b (p + 1)
      pa ← set_nfcid b (p + 2) (record rf.poll_a { sens_res0 = sens_res0; sens_res1 = sens_res1 })
      done (record rf { specific_type = rf.activation_mode; poll_a = pa }))
    else done (record rf { specific_type = rf.activation_mode })

-- The six bytes that open the notification.
unfoldable pub set_rf_intf_head : ℕ → NfcNci → Outcome RfIntf
set_rf_intf_head p n = do
  id ← rx n p
  interface ← rx n (p + 1)
  protocol ← rx n (p + 2)
  activation_mode ← rx n (p + 3)
  max_payload_size ← rx n (p + 4)
  credits ← rx n (p + 5)
  done (record n.rf_intf {
    id = id;
    interface = interface;
    protocol = protocol;
    activation_mode = activation_mode;
    max_payload_size = max_payload_size;
    credits = credits;
  })

-- The bytes after the technology specific parameters; the last one is read and dropped.
unfoldable pub set_rf_intf_tail : ℕ → NfcNci → RfIntf → Outcome RfIntf
set_rf_intf_tail p n rf = do
  exchange_mode ← rx n p
  tx_bitrate ← rx n (p + 1)
  rx_bitrate ← rx n (p + 2)
  len ← rx n (p + 3)
  done (record rf {
    exchange_mode = exchange_mode;
    tx_bitrate = tx_bitrate;
    rx_bitrate = rx_bitrate;
  })

unfoldable pub set_rf_intf : ℕ → NfcNci → Outcome RfIntf
set_rf_intf p n = do
  head ← set_rf_intf_head p n
  len ← rx n (p + 6)
  rf ← if not (len == 0) then set_rf_tech_spec_params n.rx_buf (p + 7) head else done head
  set_rf_intf_tail (p + 7 + len) n rf

unfoldable pub ntf_rf_intf_activated : ℕ → NfcNci → Outcome (ℕ × NfcNci)
ntf_rf_intf_activated p n =
    if not (is n.state rfst_discovery) then done (status_rejected, n) else (do
      len ← rx n p
      if ltb len rf_param_size_intf_activated_ntf then done (status_syntax_error, n) else (do
        rf ← set_rf_intf (p + 1) n
        done (
          status_ok,
          record n { rf_intf = rf; data_ptr = at_rf_intf; state = rfst_poll_active },
        )))

unfoldable pub rsp_rf_deactivate : ℕ → NfcNci → Outcome (ℕ × NfcNci)
rsp_rf_deactivate p n = if not (is n.state rfst_poll_active) then done (status_rejected, n) else (do
  len ← rx n p
  if not (len == rf_param_size_deactivate_rsp) then done (status_syntax_error, n) else (do
    status ← rx n (p + 1)
    done (
        if not (status == status_ok)
        then (status, n)
        else (status, record n { state = rfst_discovery; data_ptr = null }))))

unfoldable pub ntf_rf_deactivate : ℕ → NfcNci → Outcome (ℕ × NfcNci)
ntf_rf_deactivate p n = if not (is n.state rfst_discovery) then done (status_rejected, n) else (do
  len ← rx n p
  if not (len == rf_param_size_deactivate_ntf) then done (status_syntax_error, n) else (do
    type ← rx n (p + 1)
    reason ← rx n (p + 2)
    done (
      status_ok,
      record n { deactivate = record { type = type; reason = reason }; data_ptr = at_deactivate },
    )))
