-- ===== src/Nci/Events.antt =====
-- src/nci/NfcNci.cpp: `waitForEvent`, `handleEvent` and the handlers that it picks. Every handler
-- calls the client at most once, as its last act: the call is its result.
pub mod Routes
pub mod Automaton
pub mod Safety
pub mod Frame
pub mod Waiting
pub mod Receiving
pub mod Replies
pub mod Notification
pub mod Activation
pub mod Promises
use arduino_nfc.Common.{ℕ, ◌+◌, ◌==◌, if◌then◌else◌, not, Option, none, some}
use arduino_nfc.Common.Outcome.{Outcome, done, ◌>>=◌}
use arduino_nfc.Common.Buffer.{load, store_all}
use arduino_nfc.Hw.{NfcHw}
use arduino_nfc.Nci.Header.{mt_of, pbf_of, gid_of, oid_of, uint16_id}
use arduino_nfc.Nci.Types.{
  nci_packet_size, nci_msg_hdr_size, mt_data, mt_rsp, mt_ntf, gid_core, gid_rf_manage, status_ok,
  status_failed, status_syntax_error, status_unknown_gid, status_unknown_oid, core_reset, core_init,
  core_conn_credits, rf_discover_map, rf_discover, rf_intf_activated, rf_deactivate, DataPtr, null,
  at_rx, NfcNci, Callback, cb_core_reset, cb_core_init, cb_rf_discover_map, cb_rf_discover,
  cb_rf_discover_ntf, cb_rf_deactivate, cb_rf_deactivate_ntf, cb_data, cb_error, Notice,
}
use arduino_nfc.Nci.Responses.{
  rx, rsp_core_reset, rsp_core_init, rsp_rf_discover_map, rsp_rf_discover, ntf_rf_intf_activated,
  rsp_rf_deactivate, ntf_rf_deactivate,
}

abbrev pub notice : Callback → ℕ → ℕ → DataPtr → Option Notice
notice cb status id ptr = some (record { callback = cb; status = status; id = id; data_ptr = ptr })

abbrev pub Handled : Type 0
Handled = Outcome (Option Notice × NfcNci)

-- `_cb->cbError(status, UINT16_ID(mt, oid), NULL)`
unfoldable pub report : ℕ → ℕ → ℕ → NfcNci → Handled
report status mt oid n = done (notice cb_error status (uint16_id mt oid) null, n)

-- `status = handler(p); _cb->cb(status, UINT16_ID(mt, oid), _data)`
unfoldable pub answer : Callback → ℕ → ℕ → Outcome (ℕ × NfcNci) → Handled
answer cb mt oid r = do (status, n) ← r; done (notice cb status (uint16_id mt oid) n.data_ptr, n)

unfoldable pub handle_data_event : ℕ → NfcNci → Handled
handle_data_event p n = do
  b ← rx n p
  let n' = record n { data_ptr = at_rx (p + 2) }
  done (notice cb_data status_ok (uint16_id (mt_of b) (gid_of b)) n'.data_ptr, n')

unfoldable pub handle_core_event : ℕ → NfcNci → Handled
handle_core_event p n = do
  b0 ← rx n p
  b1 ← rx n (p + 1)
  let mt = mt_of b0
  let oid = oid_of b1
  if mt == mt_rsp
      then (if oid == core_reset
          then answer cb_core_reset mt oid (rsp_core_reset (p + 2) n)
          else if oid == core_init
          then answer cb_core_init mt oid (rsp_core_init (p + 2) n)
          else report status_unknown_oid mt oid n)
      else if mt == mt_ntf
      then (if oid == core_conn_credits then done (none, n) else report status_unknown_oid mt oid n)
      else done (none, n)

unfoldable pub handle_rf_event : ℕ → NfcNci → Handled
handle_rf_event p n = do
  b0 ← rx n p
  b1 ← rx n (p + 1)
  let mt = mt_of b0
  let oid = oid_of b1
  if mt == mt_rsp
      then (if oid == rf_discover_map
          then answer cb_rf_discover_map mt oid (rsp_rf_discover_map (p + 2) n)
          else if oid == rf_discover
          then answer cb_rf_discover mt oid (rsp_rf_discover (p + 2) n)
          else if oid == rf_deactivate
          then answer cb_rf_deactivate mt oid (rsp_rf_deactivate (p + 2) n)
          else report status_unknown_oid mt oid n)
      else if mt == mt_ntf
      then (if oid == rf_intf_activated
          then answer cb_rf_discover_ntf mt oid (ntf_rf_intf_activated (p + 2) n)
          else if oid == rf_deactivate
          then answer cb_rf_deactivate_ntf mt oid (ntf_rf_deactivate (p + 2) n)
          else report status_unknown_oid mt oid n)
      else report status_syntax_error mt oid n

-- `handleEvent` from the read of the header on, over the packet in `_rx_buf`.
unfoldable pub handle_packet : NfcNci → Handled
handle_packet n = do
  b0 ← rx n 0
  b1 ← rx n 1
  let mt = mt_of b0
  let gid = gid_of b0
  let oid = oid_of b1
  if not (pbf_of b0 == 0)
      then report status_syntax_error mt oid n
      else if mt == mt_data
      then handle_data_event 0 n
      else if gid == gid_core
      then handle_core_event 0 n
      else if gid == gid_rf_manage
      then handle_rf_event 0 n
      else report status_unknown_gid mt oid n

module _ (hw : NfcHw) where
  open hw use {World}

  -- One `_hw.read(&buf[i], len)`: the result, and the object with the bytes that were stored.
  unfoldable pub read_into : ℕ → ℕ → NfcNci → World → Outcome (ℕ × NfcNci × World)
  read_into i len n w = do
    (bytes, ret, w') ← hw.read len w
    b ← store_all nci_packet_size n.rx_buf i bytes
    done (ret, record n { rx_buf = b }, w')

  unfoldable pub wait_for_event : NfcNci → World → Outcome (ℕ × NfcNci × World)
  wait_for_event n w = do
    (ret, n1, w1) ← read_into 0 nci_msg_hdr_size n w
    if ret == 0 then done (ret, n1, w1) else (do
      len ← rx n1 2
      (ret', n2, w2) ← read_into nci_msg_hdr_size len n1 w1
      done (if ret' == 0 then ret' else len + nci_msg_hdr_size, n2, w2))

  unfoldable pub handle_event : NfcNci → World → Outcome (Option Notice × NfcNci × World)
  handle_event n w = if not n.registered then done (none, n, w) else (do
    (len, n', w') ← wait_for_event n w
    (note, n'') ← (if len == 0 then report status_failed 0 0 n' else handle_packet n')
    done (note, n'', w'))
