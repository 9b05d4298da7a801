-- ===== src/Nci/Events/Safety.antt =====
-- src/nci/NfcNci.cpp: when the packet handlers stay inside `_rx_buf` and `nfcid`.
use arduino_nfc.Common.{
  ℕ, ◌+◌, ◌%◌, ◌<◌, ◌≤◌, ◌≡◌, ◌≢◌, ◌⊎◌, inl, inr, not, if_rule, ◌==◌, ltb, leb, Bool-cases, arith,
}
use arduino_nfc.Common.Outcome.{
  Outcome, fault, hang, Completes, Completes-bind, bind-fault, ne_hang_of_Completes,
}
use arduino_nfc.Common.Buffer.{Buf, slice}
use arduino_nfc.Common.Buffer.Bounds.{length-slice, store_all-splice, store_all-fault}
use arduino_nfc.Nci.Types.{NfcNci, RfIntf, ParamsPa, Callback, rfst_discovery, is}
use arduino_nfc.Nci.Responses.{
  rsp_core_reset, rsp_core_init, rsp_rf_discover_map, rsp_rf_discover, ntf_rf_intf_activated,
  rsp_rf_deactivate, ntf_rf_deactivate, set_rf_intf, set_rf_intf_head, set_rf_intf_tail,
  set_rf_tech_spec_params, set_nfcid,
}
use arduino_nfc.Nci.Events.Routes.{Routes, handle_packet_rule}
use arduino_nfc.Nci.Events.{report, answer, handle_data_event, handle_packet}

-- The packet announces the activation of an interface while the code waits for one.
pub record Activates (n : NfcNci) : Type 0 where
  pub waiting : n.state ≡ rfst_discovery
  pub byte0 : n.rx_buf 0 ≡ 0x61
  pub opcode : n.rx_buf 1 % 64 ≡ 5
  pub long : 11 ≤ n.rx_buf 2

-- The technology specific parameters end inside the buffer, and an identifier in mode A has room in
-- the ten bytes kept for it.
abbrev pub Fits : Buf → Type 0
Fits b = (b 9 ≤ 244) × ((b 9 ≡ 0) ⊎ ((b 6 ≢ 0) ⊎ (b 12 ≤ 10)))

tail-Completes : (p : ℕ) (n : NfcNci) (rf : RfIntf) → p ≤ 254 → Completes (set_rf_intf_tail p n rf)
unfolding set_rf_intf_tail
tail-Completes p n rf h = ground arith

tail-fault : (p : ℕ) (n : NfcNci) (rf : RfIntf) → 254 < p → set_rf_intf_tail p n rf ≡ fault
unfolding set_rf_intf_tail
tail-fault p n rf h = ground arith

set_nfcid-Completes : (b : Buf) (pa : ParamsPa) → b 12 ≤ 10 → Completes (set_nfcid b 12 pa)
unfolding set_nfcid
set_nfcid-Completes b pa h =
    ground (arith, store_all-splice 10 pa.nfcid 0 (slice b 13 (b 12)), length-slice b 13 (b 12))

set_nfcid-fault : (b : Buf) (pa : ParamsPa) → 10 < b 12 → set_nfcid b 12 pa ≡ fault
unfolding set_nfcid
set_nfcid-fault b pa h =
    ground (arith, store_all-fault 10 pa.nfcid 0 (slice b 13 (b 12)), length-slice b 13 (b 12))

tech-Completes :
    (b : Buf) (rf : RfIntf)
    → (rf.activation_mode ≢ 0) ⊎ (b 12 ≤ 10)
    → Completes (set_rf_tech_spec_params b 10 rf)
unfolding set_rf_tech_spec_params
tech-Completes b rf h =
    ground (arith, set_nfcid-Completes b (record rf.poll_a { sens_res0 = b 10; sens_res1 = b 11 }))

tech-fault :
    (b : Buf) (rf : RfIntf)
    → rf.activation_mode ≡ 0
    → 10 < b 12
    → set_rf_tech_spec_params b 10 rf ≡ fault
unfolding set_rf_tech_spec_params
tech-fault b rf h k =
    ground (arith, set_nfcid-fault b (record rf.poll_a { sens_res0 = b 10; sens_res1 = b 11 }))

-- The interface with the six bytes after the length.
abbrev head_of : NfcNci → RfIntf
head_of n = record n.rf_intf {
  id = n.rx_buf 3;
  interface = n.rx_buf 4;
  protocol = n.rx_buf 5;
  activation_mode = n.rx_buf 6;
  max_payload_size = n.rx_buf 7;
  credits = n.rx_buf 8;
}

set_rf_intf-Completes : (n : NfcNci) → Fits n.rx_buf → Completes (set_rf_intf 3 n)
unfolding set_rf_intf set_rf_intf_head
set_rf_intf-Completes n h =
    Completes-bind _ _
      (if_rule Completes (not (n.rx_buf 9 == 0))
        (λ e. tech-Completes n.rx_buf (head_of n) (ground arith)) (λ e. tt))
      (λ rf e. tail-Completes (10 + n.rx_buf 9) n rf (ground arith))

tech_ne_hang : (b : Buf) (rf : RfIntf) → set_rf_tech_spec_params b 10 rf ≢ hang
tech_ne_hang b rf e = elim (Bool-cases (leb (b 12) 10)) [
  | inl small ↦ ne_hang_of_Completes _ (tech-Completes b rf (inr (ground arith))) e
  | inr large ↦ elim (Bool-cases (rf.activation_mode == 0)) [
    | inl a ↦ cc (tech-fault b rf (ground arith) (ground arith))
    | inr other ↦ ne_hang_of_Completes _ (tech-Completes b rf (inl (ground arith))) e
  ]
]

set_rf_intf-fault : (n : NfcNci) → ¬ Fits n.rx_buf → set_rf_intf 3 n ≡ fault
unfolding set_rf_intf set_rf_intf_head
set_rf_intf-fault n h = elim (Bool-cases (leb (n.rx_buf 9) 244)) [
  | inl small ↦ ground (arith, tech-fault n.rx_buf (head_of n))
  | inr large ↦
      bind-fault _ _
        (if_rule (λ m. m ≢ hang) (not (n.rx_buf 9 == 0)) (λ e. tech_ne_hang n.rx_buf (head_of n))
          (λ e k. cc))
        (λ rf. tail-fault (10 + n.rx_buf 9) n rf (ground arith))
]

answer-Completes :
    (cb : Callback) (mt oid : ℕ) (r : Outcome (ℕ × NfcNci))
    → Completes r
    → Completes (answer cb mt oid r)
unfolding answer
answer-Completes cb mt oid r c = Completes-bind r _ c (λ a e. tt)

-- A handler with nothing but reads at the front of the buffer returns.
module _ (n : NfcNci) where
  rsp_core_reset-Completes : Completes (rsp_core_reset 2 n)
  unfolding rsp_core_reset
  rsp_core_reset-Completes = ground arith

  rsp_core_init-Completes : Completes (rsp_core_init 2 n)
  unfolding rsp_core_init
  rsp_core_init-Completes = ground arith

  rsp_rf_discover_map-Completes : Completes (rsp_rf_discover_map 2 n)
  unfolding rsp_rf_discover_map
  rsp_rf_discover_map-Completes = ground arith

  rsp_rf_discover-Completes : Completes (rsp_rf_discover 2 n)
  unfolding rsp_rf_discover
  rsp_rf_discover-Completes = ground arith

  rsp_rf_deactivate-Completes : Completes (rsp_rf_deactivate 2 n)
  unfolding rsp_rf_deactivate
  rsp_rf_deactivate-Completes = ground arith

  ntf_rf_deactivate-Completes : Completes (ntf_rf_deactivate 2 n)
  unfolding ntf_rf_deactivate
  ntf_rf_deactivate-Completes = ground arith

  ntf_rf_intf_activated-Completes :
      (n.state ≡ rfst_discovery → 11 ≤ n.rx_buf 2 → Fits n.rx_buf)
      → Completes (ntf_rf_intf_activated 2 n)
  unfolding ntf_rf_intf_activated
  ntf_rf_intf_activated-Completes h =
      if_rule Completes (not (is n.state rfst_discovery)) (λ e. tt)
        (λ e.
          if_rule Completes (ltb (n.rx_buf 2) 11) (λ k. tt)
            (λ k.
              Completes-bind _ _ (set_rf_intf-Completes n (h (ground arith) (ground arith)))
                (λ rf e. tt)))

routes : (n : NfcNci) → (Activates n → Fits n.rx_buf) → Routes Completes n
unfolding report handle_data_event
routes n h = record {
  on_report = λ status mt oid z k. tt;
  on_silent = λ k. tt;
  on_data = λ k. tt;
  on_core_reset = λ a. answer-Completes _ _ _ _ (rsp_core_reset-Completes n);
  on_core_init = λ a. answer-Completes _ _ _ _ (rsp_core_init-Completes n);
  on_discover_map = λ a. answer-Completes _ _ _ _ (rsp_rf_discover_map-Completes n);
  on_discover = λ a. answer-Completes _ _ _ _ (rsp_rf_discover-Completes n);
  on_deactivate = λ a. answer-Completes _ _ _ _ (rsp_rf_deactivate-Completes n);
  on_activated = λ a. answer-Completes _ _ _ _ (
      ntf_rf_intf_activated-Completes n
        (λ s l. h (record { waiting = s; byte0 = a.0; opcode = a.1; long = l })));
  on_deactivated = λ a. answer-Completes _ _ _ _ (ntf_rf_deactivate-Completes n);
}

-- The packet handler returns on every packet, in every state, unless the packet announces an
-- activation that the code waits for and whose parameters do not fit.
pub handle_packet-Completes :
    (n : NfcNci)
    → n.rx_buf 0 < 256
    → n.rx_buf 1 < 256
    → (Activates n → Fits n.rx_buf)
    → Completes (handle_packet n)
handle_packet-Completes n h0 h1 h = handle_packet_rule Completes n (routes n h) h0 h1

ntf_rf_intf_activated-fault :
    (n : NfcNci) → Activates n → ¬ Fits n.rx_buf → ntf_rf_intf_activated 2 n ≡ fault
unfolding ntf_rf_intf_activated
ntf_rf_intf_activated-fault n a h = ground (arith, set_rf_intf-fault n h)

misfit_cases : (n : NfcNci) → Activates n → ¬ Fits n.rx_buf → Routes (λ r. r ≡ fault) n
unfolding answer
misfit_cases n a h = record {
  on_report = λ status mt oid z k. absurd (k (inr (inr (a.byte0, inl a.opcode))));
  on_silent = λ k. absurd (k (inr (inr (a.byte0, inl a.opcode))));
  on_data = λ k. absurd (omega arith);
  on_core_reset = λ k. absurd (omega arith);
  on_core_init = λ k. absurd (omega arith);
  on_discover_map = λ k. absurd (omega arith);
  on_discover = λ k. absurd (omega arith);
  on_deactivate = λ k. absurd (omega arith);
  on_activated = λ k. rw (ntf_rf_intf_activated-fault n a h);
  on_deactivated = λ k. absurd (omega arith);
}

-- The bug: every announced activation whose parameters do not fit makes the code leave its arrays.
-- An identifier longer than ten bytes is copied into ten bytes, and nothing checks the lengths.
pub handle_packet-fault :
    (n : NfcNci) → n.rx_buf 1 < 256 → Activates n → ¬ Fits n.rx_buf → handle_packet n ≡ fault
handle_packet-fault n h1 a h =
    handle_packet_rule (λ r. r ≡ fault) n (misfit_cases n a h) (omega arith) h1
