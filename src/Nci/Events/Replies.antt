-- ===== src/Nci/Events/Replies.antt =====
-- src/nci/NfcNci.cpp: the calls that the successful responses lead to.
use arduino_nfc.Common.{ℕ, ◌≤◌, ◌≡◌, refl, sym, subst, some, arith}
use arduino_nfc.Common.Outcome.{Outcome, done}
use arduino_nfc.Nci.Header.{uint16_id, mt_of, pbf_of, gid_of, oid_of}
use arduino_nfc.Nci.Types.{
  NfcNci, NciState, state_none, rfst_reset, rfst_idle, rfst_discovery, rfst_poll_active, Callback,
  cb_core_reset, cb_core_init, cb_rf_discover_map, cb_rf_discover, cb_rf_deactivate,
  cb_rf_discover_ntf, cb_rf_deactivate_ntf, cb_data, cb_error, Notice, null, at_reset,
}
use arduino_nfc.Nci.Responses.{
  rsp_core_reset, rsp_core_init, rsp_rf_discover_map, rsp_rf_discover, rsp_rf_deactivate,
}
use arduino_nfc.Nci.Events.{Handled, answer, handle_packet, handle_core_event, handle_rf_event}

-- The packet is a successful response, which the object waits for.
pub data Success (n : NfcNci) : Callback → Type 0 where
  reset_ok :
      n.state ≡ state_none
      → n.rx_buf 0 ≡ 0x40
      → n.rx_buf 1 ≡ 0
      → n.rx_buf 2 ≡ 3
      → n.rx_buf 3 ≡ 0
      → Success n cb_core_reset
  init_ok :
      n.state ≡ rfst_reset
      → n.rx_buf 0 ≡ 0x40
      → n.rx_buf 1 ≡ 1
      → 17 ≤ n.rx_buf 2
      → n.rx_buf 3 ≡ 0
      → Success n cb_core_init
  map_ok :
      n.state ≡ rfst_idle
      → n.rx_buf 0 ≡ 0x41
      → n.rx_buf 1 ≡ 0
      → n.rx_buf 2 ≡ 1
      → n.rx_buf 3 ≡ 0
      → Success n cb_rf_discover_map
  discover_ok :
      n.state ≡ rfst_idle
      → n.rx_buf 0 ≡ 0x41
      → n.rx_buf 1 ≡ 3
      → n.rx_buf 2 ≡ 1
      → n.rx_buf 3 ≡ 0
      → Success n cb_rf_discover
  deactivate_ok :
      n.state ≡ rfst_poll_active
      → n.rx_buf 0 ≡ 0x41
      → n.rx_buf 1 ≡ 6
      → n.rx_buf 2 ≡ 1
      → n.rx_buf 3 ≡ 0
      → Success n cb_rf_deactivate

abbrev pub state_after : Callback → NciState → NciState
state_after cb_core_reset s = rfst_reset
state_after cb_core_init s = rfst_idle
state_after cb_rf_discover_map s = rfst_idle
state_after cb_rf_discover s = rfst_discovery
state_after cb_rf_deactivate s = rfst_discovery
state_after _ s = s

-- The identifier of the responses.
abbrev pub id_of : Callback → ℕ
id_of cb_core_reset = uint16_id 2 0
id_of cb_core_init = uint16_id 2 1
id_of cb_rf_discover_map = uint16_id 2 0
id_of cb_rf_discover = uint16_id 2 3
id_of cb_rf_deactivate = uint16_id 2 6
id_of _ = 0

-- The callback is called with the status OK and its identifier, in the state of the response.
abbrev pub Calls : Callback → NfcNci → Handled → Type 0
Calls cb n r =
    (c : Notice) × (n' : NfcNci) × (r ≡ done (some c, n'))
    × (c.callback ≡ cb)
    × (c.status ≡ 0)
    × (c.id ≡ id_of cb)
    × (n'.state ≡ state_after cb n.state)
    × (n'.registered ≡ n.registered)

answer-Calls :
    (cb : Callback) (mt oid : ℕ) (r : Outcome (ℕ × NfcNci)) (n n' : NfcNci)
    → r ≡ done (0, n')
    → uint16_id mt oid ≡ id_of cb
    → n'.state ≡ state_after cb n.state
    → n'.registered ≡ n.registered
    → Calls cb n (answer cb mt oid r)
unfolding answer
answer-Calls cb mt oid r n n' e i s k = (
  record { callback = cb; status = 0; id = uint16_id mt oid; data_ptr = n'.data_ptr },
  n',
  rw e,
  refl,
  refl,
  i,
  s,
  k,
)

-- The handler that the first two bytes lead to.
core_reset_route :
    (n : NfcNci)
    → n.rx_buf 0 ≡ 64
    → n.rx_buf 1 ≡ 0
    → handle_packet n ≡ answer cb_core_reset 2 0 (rsp_core_reset 2 n)
unfolding handle_packet handle_core_event mt_of pbf_of gid_of oid_of
core_reset_route n b0 b1 = rw (b0, b1)

core_init_route :
    (n : NfcNci)
    → n.rx_buf 0 ≡ 64
    → n.rx_buf 1 ≡ 1
    → handle_packet n ≡ answer cb_core_init 2 1 (rsp_core_init 2 n)
unfolding handle_packet handle_core_event mt_of pbf_of gid_of oid_of
core_init_route n b0 b1 = rw (b0, b1)

rf_discover_map_route :
    (n : NfcNci)
    → n.rx_buf 0 ≡ 65
    → n.rx_buf 1 ≡ 0
    → handle_packet n ≡ answer cb_rf_discover_map 2 0 (rsp_rf_discover_map 2 n)
unfolding handle_packet handle_rf_event mt_of pbf_of gid_of oid_of
rf_discover_map_route n b0 b1 = rw (b0, b1)

rf_discover_route :
    (n : NfcNci)
    → n.rx_buf 0 ≡ 65
    → n.rx_buf 1 ≡ 3
    → handle_packet n ≡ answer cb_rf_discover 2 3 (rsp_rf_discover 2 n)
unfolding handle_packet handle_rf_event mt_of pbf_of gid_of oid_of
rf_discover_route n b0 b1 = rw (b0, b1)

rf_deactivate_route :
    (n : NfcNci)
    → n.rx_buf 0 ≡ 65
    → n.rx_buf 1 ≡ 6
    → handle_packet n ≡ answer cb_rf_deactivate 2 6 (rsp_rf_deactivate 2 n)
unfolding handle_packet handle_rf_event mt_of pbf_of gid_of oid_of
rf_deactivate_route n b0 b1 = rw (b0, b1)

-- Whatever else the packet holds, a successful response that the object waits for leads to the call of its
-- callback with the status OK, and to its state.
pub handle_packet-Calls : (cb : Callback) (n : NfcNci) → Success n cb → Calls cb n (handle_packet n)
unfolding rsp_core_reset rsp_core_init rsp_rf_discover_map rsp_rf_discover rsp_rf_deactivate
handle_packet-Calls cb_core_reset n (reset_ok s b0 b1 b2 b3) =
    subst (Calls cb_core_reset n) (sym (core_reset_route n b0 b1)) (
      answer-Calls cb_core_reset 2 0 (rsp_core_reset 2 n) n
        (record n {
          reset = record { version = n.rx_buf 4; status = n.rx_buf 5 };
          data_ptr = at_reset;
          state = rfst_reset;
        })
        (ground arith) refl (ground arith) refl)
handle_packet-Calls cb_core_init n (init_ok s b0 b1 b2 b3) =
    subst (Calls cb_core_init n) (sym (core_init_route n b0 b1)) (
      answer-Calls cb_core_init 2 1 (rsp_core_init 2 n) n
        (record n { data_ptr = null; state = rfst_idle }) (ground arith) refl (ground arith) refl)
handle_packet-Calls cb_rf_discover_map n (map_ok s b0 b1 b2 b3) =
    subst (Calls cb_rf_discover_map n) (sym (rf_discover_map_route n b0 b1)) (
      answer-Calls cb_rf_discover_map 2 0 (rsp_rf_discover_map 2 n) n (record n { data_ptr = null })
        (ground arith) refl (ground arith) refl)
handle_packet-Calls cb_rf_discover n (discover_ok s b0 b1 b2 b3) =
    subst (Calls cb_rf_discover n) (sym (rf_discover_route n b0 b1)) (
      answer-Calls cb_rf_discover 2 3 (rsp_rf_discover 2 n) n
        (record n { state = rfst_discovery; data_ptr = null }) (ground arith) refl (ground arith)
        refl)
handle_packet-Calls cb_rf_deactivate n (deactivate_ok s b0 b1 b2 b3) =
    subst (Calls cb_rf_deactivate n) (sym (rf_deactivate_route n b0 b1)) (
      answer-Calls cb_rf_deactivate 2 6 (rsp_rf_deactivate 2 n) n
        (record n { state = rfst_discovery; data_ptr = null }) (ground arith) refl (ground arith)
        refl)
handle_packet-Calls cb_rf_discover_ntf n x = elim x [ ]
handle_packet-Calls cb_rf_deactivate_ntf n x = elim x [ ]
handle_packet-Calls cb_data n x = elim x [ ]
handle_packet-Calls cb_error n x = elim x [ ]
