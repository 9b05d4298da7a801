-- ===== src/Nci/Events/Routes.antt =====
-- src/nci/NfcNci.cpp: the cases of `handleEvent`, by the header of the packet. What holds of each
-- handler where it is called holds of the whole.
use arduino_nfc.Common.{ℕ, ◌+◌, ◌*◌, ◌%◌, ◌<◌, ◌≤◌, ◌≡◌, ◌⊎◌, ◌==◌, if_rule, not, none, arith}
use arduino_nfc.Common.Outcome.{done}
use arduino_nfc.Nci.Header.{mt_of, pbf_of, gid_of, oid_of}
use arduino_nfc.Nci.Header.RoundTrip.{header_fields}
use arduino_nfc.Nci.Types.{
  NfcNci, cb_core_reset, cb_core_init, cb_rf_discover_map, cb_rf_discover, cb_rf_discover_ntf,
  cb_rf_deactivate, cb_rf_deactivate_ntf,
}
use arduino_nfc.Nci.Responses.{
  rsp_core_reset, rsp_core_init, rsp_rf_discover_map, rsp_rf_discover, ntf_rf_intf_activated,
  rsp_rf_deactivate, ntf_rf_deactivate,
}
use arduino_nfc.Nci.Events.{
  Handled, report, answer, handle_data_event, handle_core_event, handle_rf_event, handle_packet,
}

-- The header and the opcode of a packet that reaches a handler of responses or notifications.
abbrev pub IsRouted : ℕ → ℕ → Type 0
IsRouted b0 oid =
    ((b0 ≡ 0x40) × (oid ≤ 1))
    ⊎ (((b0 ≡ 0x41) × ((oid ≡ 0) ⊎ ((oid ≡ 3) ⊎ (oid ≡ 6))))
        ⊎ ((b0 ≡ 0x61) × ((oid ≡ 5) ⊎ (oid ≡ 6))))

-- The packet in the buffer has this first byte and this opcode.
abbrev pub At : NfcNci → ℕ → ℕ → Type 0
At n b0 oid = (n.rx_buf 0 ≡ b0) × (n.rx_buf 1 % 64 ≡ oid)

-- A statement about the result of the handler, proved for each of its ends.
pub record Routes {ℓ} (P : Handled → Type ℓ) (n : NfcNci) : Type ℓ where
  pub on_report :
      (status mt oid : ℕ)
      → 0 < status
      → ¬ IsRouted (n.rx_buf 0) (n.rx_buf 1 % 64)
      → P (report status mt oid n)
  pub on_silent : ¬ IsRouted (n.rx_buf 0) (n.rx_buf 1 % 64) → P (done (none, n))
  pub on_data : n.rx_buf 0 < 16 → P (handle_data_event 0 n)
  pub on_core_reset : At n 0x40 0 → P (answer cb_core_reset 2 0 (rsp_core_reset 2 n))
  pub on_core_init : At n 0x40 1 → P (answer cb_core_init 2 1 (rsp_core_init 2 n))
  pub on_discover_map : At n 0x41 0 → P (answer cb_rf_discover_map 2 0 (rsp_rf_discover_map 2 n))
  pub on_discover : At n 0x41 3 → P (answer cb_rf_discover 2 3 (rsp_rf_discover 2 n))
  pub on_deactivate : At n 0x41 6 → P (answer cb_rf_deactivate 2 6 (rsp_rf_deactivate 2 n))
  pub on_activated : At n 0x61 5 → P (answer cb_rf_discover_ntf 3 5 (ntf_rf_intf_activated 2 n))
  pub on_deactivated : At n 0x61 6 → P (answer cb_rf_deactivate_ntf 3 6 (ntf_rf_deactivate 2 n))

-- The parsed header of a packet with a clear boundary flag, in terms of its bytes.
record Parsed (n : NfcNci) (gid : ℕ) : Type 0 where
  byte0 : n.rx_buf 0 ≡ mt_of (n.rx_buf 0) * 32 + gid
  opcode : oid_of (n.rx_buf 1) ≡ n.rx_buf 1 % 64

module _ {ℓ} (P : Handled → Type ℓ) (n : NfcNci) (r : Routes P n) where
  abbrev mt : ℕ
  mt = mt_of (n.rx_buf 0)

  abbrev oid : ℕ
  oid = oid_of (n.rx_buf 1)

  put_literals : (f : ℕ → ℕ → Handled) (m o : ℕ) → mt ≡ m → oid ≡ o → P (f m o) → P (f mt oid)
  put_literals f m o e e' p = rw (e, e') p

  core_event_rule : Parsed n 0 → P (handle_core_event 0 n)
  unfolding handle_core_event
  core_event_rule f =
      if_rule P (mt == 2)
        (λ e.
          if_rule P (oid == 0)
            (λ o0.
              put_literals (λ m o. answer cb_core_reset m o (rsp_core_reset 2 n)) 2 0 (ground arith)
                (ground arith) (r.on_core_reset (ground arith, ground arith)))
            (λ n0.
              if_rule P (oid == 1)
                (λ o1.
                  put_literals (λ m o. answer cb_core_init m o (rsp_core_init 2 n)) 2 1
                    (ground arith) (ground arith) (r.on_core_init (ground arith, ground arith)))
                (λ n1. r.on_report _ mt oid (omega arith) (ground arith))))
        (λ e.
          if_rule P (mt == 3)
            (λ e'.
              if_rule P (oid == 6) (λ o. r.on_silent (ground arith))
                (λ o. r.on_report _ mt oid (omega arith) (ground arith)))
            (λ e'. r.on_silent (ground arith)))

  rf_event_rule : Parsed n 1 → P (handle_rf_event 0 n)
  unfolding handle_rf_event
  rf_event_rule f =
      if_rule P (mt == 2)
        (λ e.
          if_rule P (oid == 0)
            (λ o0.
              put_literals (λ m o. answer cb_rf_discover_map m o (rsp_rf_discover_map 2 n)) 2 0
                (ground arith) (ground arith) (r.on_discover_map (ground arith, ground arith)))
            (λ n0.
              if_rule P (oid == 3)
                (λ o1.
                  put_literals (λ m o. answer cb_rf_discover m o (rsp_rf_discover 2 n)) 2 3
                    (ground arith) (ground arith) (r.on_discover (ground arith, ground arith)))
                (λ n1.
                  if_rule P (oid == 6)
                    (λ o2.
                      put_literals (λ m o. answer cb_rf_deactivate m o (rsp_rf_deactivate 2 n)) 2 6
                        (ground arith) (ground arith)
                        (r.on_deactivate (ground arith, ground arith)))
                    (λ n2. r.on_report _ mt oid (omega arith) (ground arith)))))
        (λ e.
          if_rule P (mt == 3)
            (λ e'.
              if_rule P (oid == 5)
                (λ o0.
                  put_literals (λ m o. answer cb_rf_discover_ntf m o (ntf_rf_intf_activated 2 n)) 3
                    5 (ground arith) (ground arith) (r.on_activated (ground arith, ground arith)))
                (λ n0.
                  if_rule P (oid == 6)
                    (λ o1.
                      put_literals (λ m o. answer cb_rf_deactivate_ntf m o (ntf_rf_deactivate 2 n))
                        3 6 (ground arith) (ground arith)
                        (r.on_deactivated (ground arith, ground arith)))
                    (λ n1. r.on_report _ mt oid (omega arith) (ground arith))))
            (λ e'. r.on_report _ mt oid (omega arith) (ground arith)))

  -- What holds at every end of the handler holds of its result.
  pub handle_packet_rule : n.rx_buf 0 < 256 → n.rx_buf 1 < 256 → P (handle_packet n)
  unfolding handle_packet
  handle_packet_rule h0 h1 =
      let b0 = header_fields (n.rx_buf 0) h0 in
      let b1 = header_fields (n.rx_buf 1) h1 in
      if_rule P (not (pbf_of (n.rx_buf 0) == 0))
        (λ p. r.on_report _ mt oid (omega arith) (ground arith))
        (λ p.
          if_rule P (mt == 0) (λ d. r.on_data (ground arith))
            (λ d.
              if_rule P (gid_of (n.rx_buf 0) == 0) (λ g. core_event_rule (ground arith))
                (λ g.
                  if_rule P (gid_of (n.rx_buf 0) == 1) (λ g'. rf_event_rule (ground arith))
                    (λ g'. r.on_report _ mt oid (omega arith) (ground arith)))))
