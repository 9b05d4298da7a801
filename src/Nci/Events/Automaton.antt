-- ===== src/Nci/Events/Automaton.antt =====
-- src/nci/NfcNci.cpp: what a received packet does to `_state`, against an automaton over the packets
-- that the NCI specification names.
use arduino_nfc.Common.{ℕ, ◌%◌, ◌<◌, ◌≡◌, sym, subst, ◌&&◌, ◌==◌, leb, if◌then◌else◌, Option, arith}
use arduino_nfc.Common.Outcome.{Outcome, done, fault, hang, Returns}
use arduino_nfc.Common.Buffer.{Buf}
use arduino_nfc.Nci.Types.{
  NciState, state_none, rfst_reset, rfst_idle, rfst_discovery, rfst_poll_active, NfcNci, Notice,
  Callback,
}
use arduino_nfc.Nci.Responses.{
  rsp_core_reset, rsp_core_init, rsp_rf_discover_map, rsp_rf_discover, ntf_rf_intf_activated,
  rsp_rf_deactivate, ntf_rf_deactivate,
}
use arduino_nfc.Nci.Events.Routes.{IsRouted, Routes, handle_packet_rule}
use arduino_nfc.Nci.Events.{Handled, report, answer, handle_data_event, handle_packet}

-- The packets that move the RF state: successful responses, and the activation of an interface.
pub data Event : Type 0 where
  reset_done init_done discover_started activated deactivated other : Event

abbrev pub core_response : ℕ → ℕ → ℕ → Event
core_response oid len status =
    if (oid == 0) && ((len == 3) && (status == 0))
    then reset_done
    else if (oid == 1) && (leb 17 len && (status == 0))
    then init_done
    else other

abbrev pub rf_response : ℕ → ℕ → ℕ → Event
rf_response oid len status =
    if (oid == 3) && ((len == 1) && (status == 0))
    then discover_started
    else if (oid == 6) && ((len == 1) && (status == 0))
    then deactivated
    else other

abbrev pub rf_notification : ℕ → ℕ → Event
rf_notification oid len = if (oid == 5) && leb 11 len then activated else other

-- By the bytes of the packet: MT, PBF and GID in byte 0, OID in byte 1, the length, the status.
unfoldable pub event_of : Buf → Event
event_of b =
    if b 0 == 0x40
    then core_response (b 1 % 64) (b 2) (b 3)
    else if b 0 == 0x41
    then rf_response (b 1 % 64) (b 2) (b 3)
    else if b 0 == 0x61
    then rf_notification (b 1 % 64) (b 2)
    else other

unfoldable pub advance : NciState → Event → NciState
advance state_none reset_done = rfst_reset
advance rfst_reset init_done = rfst_idle
advance rfst_idle discover_started = rfst_discovery
advance rfst_discovery activated = rfst_poll_active
advance rfst_poll_active deactivated = rfst_discovery
advance s _ = s

-- The automaton's state after the packet in the buffer.
after : NfcNci → NciState
unfolding advance event_of
after n = advance n.state (event_of n.rx_buf)

abbrev Lands : NfcNci → Outcome (ℕ × NfcNci) → Type 0
Lands n = Returns (λ r. r.1.state ≡ after n)

after_unrouted : (n : NfcNci) → ¬ IsRouted (n.rx_buf 0) (n.rx_buf 1 % 64) → after n ≡ n.state
unfolding after
after_unrouted n h = ground arith

rsp_core_reset-Lands :
    (n : NfcNci) → n.rx_buf 0 ≡ 0x40 → n.rx_buf 1 % 64 ≡ 0 → Lands n (rsp_core_reset 2 n)
unfolding rsp_core_reset after
rsp_core_reset-Lands n h0 h1 = ground arith

rsp_core_init-Lands :
    (n : NfcNci) → n.rx_buf 0 ≡ 0x40 → n.rx_buf 1 % 64 ≡ 1 → Lands n (rsp_core_init 2 n)
unfolding rsp_core_init after
rsp_core_init-Lands n h0 h1 = ground arith

rsp_rf_discover_map-Lands :
    (n : NfcNci) → n.rx_buf 0 ≡ 0x41 → n.rx_buf 1 % 64 ≡ 0 → Lands n (rsp_rf_discover_map 2 n)
unfolding rsp_rf_discover_map after
rsp_rf_discover_map-Lands n h0 h1 = ground arith

rsp_rf_discover-Lands :
    (n : NfcNci) → n.rx_buf 0 ≡ 0x41 → n.rx_buf 1 % 64 ≡ 3 → Lands n (rsp_rf_discover 2 n)
unfolding rsp_rf_discover after
rsp_rf_discover-Lands n h0 h1 = ground arith

rsp_rf_deactivate-Lands :
    (n : NfcNci) → n.rx_buf 0 ≡ 0x41 → n.rx_buf 1 % 64 ≡ 6 → Lands n (rsp_rf_deactivate 2 n)
unfolding rsp_rf_deactivate after
rsp_rf_deactivate-Lands n h0 h1 = ground arith

ntf_rf_intf_activated-Lands :
    (n : NfcNci) → n.rx_buf 0 ≡ 0x61 → n.rx_buf 1 % 64 ≡ 5 → Lands n (ntf_rf_intf_activated 2 n)
unfolding ntf_rf_intf_activated after
ntf_rf_intf_activated-Lands n h0 h1 = ground arith

ntf_rf_deactivate-Lands :
    (n : NfcNci) → n.rx_buf 0 ≡ 0x61 → n.rx_buf 1 % 64 ≡ 6 → Lands n (ntf_rf_deactivate 2 n)
unfolding ntf_rf_deactivate after
ntf_rf_deactivate-Lands n h0 h1 = ground arith

abbrev Moves : NfcNci → Handled → Type 0
Moves n = Returns (λ r. r.1.state ≡ after n)

answer-Moves :
    (n : NfcNci) (cb : Callback) (mt oid : ℕ) (r : Outcome (ℕ × NfcNci))
    → Lands n r
    → Moves n (answer cb mt oid r)
unfolding answer
answer-Moves n cb mt oid (done r) h = h
answer-Moves n cb mt oid fault h = tt
answer-Moves n cb mt oid hang h = tt

-- Every end of the handler agrees with the automaton.
routes : (n : NfcNci) → Routes (Moves n) n
unfolding report handle_data_event
routes n = record {
  on_report = λ status mt oid z h. sym (after_unrouted n h);
  on_silent = λ h. sym (after_unrouted n h);
  on_data = λ h. sym (after_unrouted n (ground arith));
  on_core_reset = λ a. answer-Moves n _ _ _ (rsp_core_reset 2 n) (rsp_core_reset-Lands n a.0 a.1);
  on_core_init = λ a. answer-Moves n _ _ _ (rsp_core_init 2 n) (rsp_core_init-Lands n a.0 a.1);
  on_discover_map =
      λ a. answer-Moves n _ _ _ (rsp_rf_discover_map 2 n) (rsp_rf_discover_map-Lands n a.0 a.1);
  on_discover = λ a. answer-Moves n _ _ _ (rsp_rf_discover 2 n) (rsp_rf_discover-Lands n a.0 a.1);
  on_deactivate =
      λ a. answer-Moves n _ _ _ (rsp_rf_deactivate 2 n) (rsp_rf_deactivate-Lands n a.0 a.1);
  on_activated =
      λ a. answer-Moves n _ _ _ (ntf_rf_intf_activated 2 n) (ntf_rf_intf_activated-Lands n a.0 a.1);
  on_deactivated =
      λ a. answer-Moves n _ _ _ (ntf_rf_deactivate 2 n) (ntf_rf_deactivate-Lands n a.0 a.1);
}

-- Whatever two header bytes and payload stand in the receive buffer, a call of the packet handler
-- that returns leaves the state that the automaton reaches by the packet's event.
pub handle_packet-advance :
    (n : NfcNci) (result : Option Notice) (n' : NfcNci)
    → n.rx_buf 0 < 256
    → n.rx_buf 1 < 256
    → handle_packet n ≡ done (result, n')
    → n'.state ≡ advance n.state (event_of n.rx_buf)
unfolding after
handle_packet-advance n result n' h0 h1 e =
    subst (Moves n) e (handle_packet_rule (Moves n) n (routes n) h0 h1)
