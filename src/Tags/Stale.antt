-- ===== src/Tags/Stale.antt =====
-- src/tags/NfcTags.cpp over src/nci/NfcNci.cpp: activations that failed, and dumps that have ended.
use arduino_nfc.Common.{
  ◌==◌, ◌&&◌, Bool-cases, ℕ, ◌<◌, ◌≤◌, ◌%◌, ◌≡◌, ◌≢◌, ◌⊎◌, inl, inr, refl, Option, some, true,
  arith,
}
use arduino_nfc.Common.Outcome.{done, fault}
use arduino_nfc.Hw.{NfcHw}
use arduino_nfc.Nci.Types.{
  NfcNci, Notice, Callback, at_reset, at_deactivate, at_rx, rfst_discovery, status_ok,
  status_rejected, status_syntax_error, is,
}
use arduino_nfc.Nci.Header.{uint16_id}
use arduino_nfc.Nci.Responses.{ntf_rf_intf_activated}
use arduino_nfc.Nci.Events.{Handled, answer, handle_packet}
use arduino_nfc.Nci.Events.Routes.{Routes, handle_packet_rule}
use arduino_nfc.Tags.Types.{
  Type2, NfcTags, AppCall, tags_id_dump, dumping, to_tag2, t2_none, t2_id_dump,
}
use arduino_nfc.Tags.Type2
use arduino_nfc.Tags.Type2.Reading.{FourBlocks, handle_data-takes, handle_data-corrupted}
use arduino_nfc.Tags.Interface.{intf_handle_data, intf_handle_dump}
use arduino_nfc.Tags.Stack.{identify_tag, rf_intf_at, set_nci_response}
use arduino_nfc.Tags.Callbacks.{on_notice, on_rf_discover_ntf, on_data}
use arduino_nfc.Tags.Handlers.{handle_event, handle_dump}

-- The packet announces an activation that fails: none is waited for, or it is too short. The data of
-- the last call were those of a reset or of a deactivation.
pub record FailedActivation (n : NfcNci) : Type 0 where
  pub byte0 : n.rx_buf 0 ≡ 0x61
  pub opcode : n.rx_buf 1 % 64 ≡ 5
  pub fails : (n.state ≢ rfst_discovery) ⊎ (n.rx_buf 2 < 11)
  pub stale : (n.data_ptr ≡ at_reset) ⊎ (n.data_ptr ≡ at_deactivate)

-- A call of the tag API in which it leaves the object that its data point to.
abbrev Misleads : NfcTags → NfcNci → Handled → Type 0
Misleads t n r = (c : Notice) × (r ≡ done (some c, n)) × (on_notice c t n ≡ fault)

activated_fails :
    (n : NfcNci) → FailedActivation n → (s : ℕ) × (ntf_rf_intf_activated 2 n ≡ done (s, n))
unfolding ntf_rf_intf_activated
activated_fails n a = elim (Bool-cases (is n.state rfst_discovery)) [
  | inl waiting ↦ (status_syntax_error, ground (arith, a.fails))
  | inr other ↦ (status_rejected, ground (arith, a.fails))
]

stale-fault :
    (s id : ℕ) (t : NfcTags) (n : NfcNci)
    → (n.data_ptr ≡ at_reset) ⊎ (n.data_ptr ≡ at_deactivate)
    → on_rf_discover_ntf s id n.data_ptr t n ≡ fault
unfolding on_rf_discover_ntf identify_tag rf_intf_at
stale-fault s id t n (inl e) = rw e
stale-fault s id t n (inr e) = rw e

activated-Misleads :
    (t : NfcTags) (n : NfcNci)
    → FailedActivation n
    → Misleads t n (answer Callback.cb_rf_discover_ntf 3 5 (ntf_rf_intf_activated 2 n))
unfolding answer on_notice
activated-Misleads t n a =
    let (s, e) = activated_fails n a in
    (
      record {
        callback = Callback.cb_rf_discover_ntf;
        status = s;
        id = uint16_id 3 5;
        data_ptr = n.data_ptr;
      },
      rw e,
      stale-fault s (uint16_id 3 5) t n a.stale,
    )

routes : (t : NfcTags) (n : NfcNci) → FailedActivation n → Routes (Misleads t n) n
routes t n a = record {
  on_report = λ status mt oid z k. absurd (k (inr (inr (a.byte0, inl a.opcode))));
  on_silent = λ k. absurd (k (inr (inr (a.byte0, inl a.opcode))));
  on_data = λ k. absurd (omega (arith, a.byte0));
  on_core_reset = λ k. absurd (omega (arith, a.byte0));
  on_core_init = λ k. absurd (omega (arith, a.byte0));
  on_discover_map = λ k. absurd (omega (arith, a.byte0));
  on_discover = λ k. absurd (omega (arith, a.byte0));
  on_deactivate = λ k. absurd (omega (arith, a.byte0));
  on_activated = λ k. activated-Misleads t n a;
  on_deactivated = λ k. absurd (omega (arith, a.opcode));
}

-- The bug: `cbRfDiscoverNtf` takes its data for an interface whatever the status is. On the notice of
-- an activation that fails, after a reset or a deactivation whose data are still those of the last
-- call, the tag API reads outside the object that they point to.
pub stale_data-fault :
    (t : NfcTags) (n : NfcNci)
    → n.rx_buf 1 < 256
    → FailedActivation n
    → (c : Notice) × (handle_packet n ≡ done (some c, n)) × (on_notice c t n ≡ fault)
stale_data-fault t n h a =
    handle_packet_rule (Misleads t n) n (routes t n a) (omega (arith, a.byte0)) h

-- A dump is under way, and the message in the buffer is its last: that of the last four blocks, or one
-- that is corrupted.
pub record EndsDump (t : NfcTags) (n : NfcNci) : Type 0 where
  pub id : t.id ≡ tags_id_dump
  pub state : t.state ≡ dumping
  pub intf : t.intf ≡ to_tag2
  pub tag_id : t.tag2.id ≡ t2_id_dump
  pub registered : t.tag2.registered ≡ true
  pub last : (12 ≤ t.tag2.block) ⊎ (¬ FourBlocks n.rx_buf)

-- The handler of the dump reads a value that nothing has set.
unset_status :
    (hw : NfcHw) (t : NfcTags) (n : NfcNci) (w : hw.World)
    → t.id ≡ tags_id_dump
    → t.state ≡ dumping
    → t.intf ≡ to_tag2
    → t.tag2.state ≡ t2_none
    → handle_event hw t n w ≡ fault
unfolding handle_event handle_dump intf_handle_dump Type2.handle_dump
unset_status hw t n w i s f e = ground arith

-- The message leads to a call and to this state of the tag's interface.
abbrev Settles : NfcTags → NfcNci → Type 0
Settles t n =
    (c : Option AppCall) × (t2 : Type2) × (t2.state ≡ t2_none)
    × (Type2.handle_data status_ok (at_rx 2) t.tag2 n ≡ done (c, t2))

last_message : (t : NfcTags) (n : NfcNci) → EndsDump t n → Settles t n
unfolding Type2.take_blocks Type2.drop_dump
last_message t n d = elim (Bool-cases ((n.rx_buf 2 == 17) && (n.rx_buf 19 == 0))) [
  | inl good ↦
      let m : FourBlocks n.rx_buf = record { size = ground arith; status = ground arith } in
      (_, _, last_block m, handle_data-takes t.tag2 n d.registered d.tag_id m)
  | inr bad ↦ (
    _,
    _,
    refl,
    handle_data-corrupted t.tag2 n d.registered d.tag_id (λ m. ground (arith, m.size, m.status)),
  )
]
  where
    last_block : FourBlocks n.rx_buf → (Type2.take_blocks 17 (at_rx 2) t.tag2).state ≡ t2_none
    last_block m = elim d.last [ inl b ↦ ground arith | inr bad ↦ absurd (bad m) ]

-- The bug: nothing ends the dump of the tag API when that of the tag's interface ends. With an
-- application registered, and after the last message of a dump, with the status OK, the next
-- `handleEvent`, if no command comes first, reads a status that nothing has set.
pub ended_dump-fault :
    (hw : NfcHw) (id : ℕ) (t : NfcTags) (n : NfcNci) (w : hw.World)
    → EndsDump t n
    → (c : Option AppCall) × (t' : NfcTags) × (on_data status_ok id (at_rx 2) t n ≡ done (c, t'))
      × (handle_event hw t' n w ≡ fault)
unfolding on_data intf_handle_data set_nci_response
ended_dump-fault hw id t n w d =
    let (c, t2, e, r) = last_message t n d in
    let t' = record (set_nci_response status_ok id (at_rx 2) t) { tag2 = t2 } in
    (c, t', rw (d.intf, r), unset_status hw t' n w d.id d.state d.intf e)
