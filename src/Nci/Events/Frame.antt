-- ===== src/Nci/Events/Frame.antt =====
-- src/nci/NfcNci.cpp: what no packet changes.
use arduino_nfc.Common.{ℕ, ◌<◌, ◌≡◌, refl, subst, Option, arith}
use arduino_nfc.Common.Outcome.{Outcome, done, fault, hang, Returns}
use arduino_nfc.Nci.Types.{NfcNci, Notice, Callback}
use arduino_nfc.Nci.Responses.{
  rsp_core_reset, rsp_core_init, rsp_rf_discover_map, rsp_rf_discover, ntf_rf_intf_activated,
  rsp_rf_deactivate, ntf_rf_deactivate,
}
use arduino_nfc.Nci.Events.Routes.{Routes, handle_packet_rule}
use arduino_nfc.Nci.Events.{report, answer, handle_data_event, handle_packet}

-- The buffers and the client are the same.
pub record SameBuffers (n n' : NfcNci) : Type 0 where
  pub rx_buf : n'.rx_buf ≡ n.rx_buf
  pub tx_buf : n'.tx_buf ≡ n.tx_buf
  pub registered : n'.registered ≡ n.registered

abbrev Frames : NfcNci → ℕ × NfcNci → Type 0
Frames n r = SameBuffers n r.1

module _ (n : NfcNci) where
  same : SameBuffers n n
  same = record { rx_buf = refl; tx_buf = refl; registered = refl }

  rsp_core_reset-Frames : Returns (Frames n) (rsp_core_reset 2 n)
  unfolding rsp_core_reset
  rsp_core_reset-Frames = ground arith

  rsp_core_init-Frames : Returns (Frames n) (rsp_core_init 2 n)
  unfolding rsp_core_init
  rsp_core_init-Frames = ground arith

  rsp_rf_discover_map-Frames : Returns (Frames n) (rsp_rf_discover_map 2 n)
  unfolding rsp_rf_discover_map
  rsp_rf_discover_map-Frames = ground arith

  rsp_rf_discover-Frames : Returns (Frames n) (rsp_rf_discover 2 n)
  unfolding rsp_rf_discover
  rsp_rf_discover-Frames = ground arith

  rsp_rf_deactivate-Frames : Returns (Frames n) (rsp_rf_deactivate 2 n)
  unfolding rsp_rf_deactivate
  rsp_rf_deactivate-Frames = ground arith

  ntf_rf_intf_activated-Frames : Returns (Frames n) (ntf_rf_intf_activated 2 n)
  unfolding ntf_rf_intf_activated
  ntf_rf_intf_activated-Frames = ground arith

  ntf_rf_deactivate-Frames : Returns (Frames n) (ntf_rf_deactivate 2 n)
  unfolding ntf_rf_deactivate
  ntf_rf_deactivate-Frames = ground arith

abbrev FramesAll : NfcNci → Option Notice × NfcNci → Type 0
FramesAll n r = SameBuffers n r.1

answer-Frames :
    (n : NfcNci) (cb : Callback) (mt oid : ℕ) (r : Outcome (ℕ × NfcNci))
    → Returns (Frames n) r
    → Returns (FramesAll n) (answer cb mt oid r)
unfolding answer
answer-Frames n cb mt oid (done r) h = h
answer-Frames n cb mt oid fault h = tt
answer-Frames n cb mt oid hang h = tt

routes : (n : NfcNci) → Routes (Returns (FramesAll n)) n
unfolding report handle_data_event
routes n = record {
  on_report = λ status mt oid z h. same n;
  on_silent = λ h. same n;
  on_data = λ h. record { rx_buf = refl; tx_buf = refl; registered = refl };
  on_core_reset = λ a. answer-Frames n _ _ _ (rsp_core_reset 2 n) (rsp_core_reset-Frames n);
  on_core_init = λ a. answer-Frames n _ _ _ (rsp_core_init 2 n) (rsp_core_init-Frames n);
  on_discover_map =
      λ a. answer-Frames n _ _ _ (rsp_rf_discover_map 2 n) (rsp_rf_discover_map-Frames n);
  on_discover = λ a. answer-Frames n _ _ _ (rsp_rf_discover 2 n) (rsp_rf_discover-Frames n);
  on_deactivate = λ a. answer-Frames n _ _ _ (rsp_rf_deactivate 2 n) (rsp_rf_deactivate-Frames n);
  on_activated =
      λ a. answer-Frames n _ _ _ (ntf_rf_intf_activated 2 n) (ntf_rf_intf_activated-Frames n);
  on_deactivated = λ a. answer-Frames n _ _ _ (ntf_rf_deactivate 2 n) (ntf_rf_deactivate-Frames n);
}

-- A call of the packet handler that returns, on any packet and in any state, changes neither buffer and
-- keeps the client.
pub handle_packet-SameBuffers :
    (n n' : NfcNci) (result : Option Notice)
    → n.rx_buf 0 < 256
    → n.rx_buf 1 < 256
    → handle_packet n ≡ done (result, n')
    → SameBuffers n n'
handle_packet-SameBuffers n n' result h0 h1 e =
    subst (Returns (FramesAll n)) e (handle_packet_rule (Returns (FramesAll n)) n (routes n) h0 h1)
