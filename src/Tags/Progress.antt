-- ===== src/Tags/Progress.antt =====
-- src/tags/NfcTags.cpp over src/nci/NfcNci.cpp: a command, its packet, and a successful response.
use arduino_nfc.Common.{ℕ, ◌≡◌, refl, true, Option, none, some, arith}
use arduino_nfc.Common.Outcome.{done}
use arduino_nfc.Hw.{NfcHw}
use arduino_nfc.Nci.Header.{uint16_id}
use arduino_nfc.Nci.Types.{
  NfcNci, DataPtr, Callback, cb_core_reset, cb_core_init, cb_rf_discover_map, cb_rf_discover,
  cb_rf_discover_ntf, cb_rf_deactivate, cb_rf_deactivate_ntf, cb_data, cb_error,
}
use arduino_nfc.Nci.Events.Receiving.{Packet, Gives, received, handle_event-Gives}
use arduino_nfc.Nci.Events.Replies.{Success, id_of, state_after, handle_packet-Calls}
use arduino_nfc.Tags.Types.{
  NfcTags, AppCall, AppCallback, cb_reset, cb_discover, tags_id_reset, tags_id_discover, init_init,
  init_done, discover, discover_ntf, deactivate_rsp, tags_status_ok,
}
use arduino_nfc.Tags.Stack.{set_nci_response}
use arduino_nfc.Tags.Callbacks.{
  on_notice, on_core_reset, on_core_init, on_rf_discover_map, on_rf_discover, on_rf_deactivate,
}
use arduino_nfc.Tags.Advance.{target}
use arduino_nfc.Tags.System.{deliver, nci_turn}

-- A call of the application with the status OK.
abbrev pub call_of : AppCallback → ℕ → AppCall
call_of cb id = record { callback = cb; status = tags_status_ok; id = id; dump = none }

-- The call of the application that goes with the response.
abbrev pub told_of : Callback → Option AppCall
told_of cb_core_init = some (call_of cb_reset tags_id_reset)
told_of cb_rf_discover = some (call_of cb_discover tags_id_discover)
told_of _ = none

-- The tag API after the response, and the call of the application.
abbrev pub Answered : Callback → NfcTags → NfcTags → Type 0
Answered cb t t' =
    (t'.state ≡ target cb t.state)
    × (t'.id ≡ t.id)
    × (t'.registered ≡ t.registered)
    × (t'.tag2 ≡ t.tag2)
    × (t'.intf ≡ t.intf)

on_response :
    (cb : Callback) (ptr : DataPtr) (t : NfcTags) (n m : NfcNci)
    → t.registered ≡ true
    → Success m cb
    → (t' : NfcTags) × Answered cb t t'
      × (on_notice (record { callback = cb; status = 0; id = id_of cb; data_ptr = ptr }) t n
          ≡ done (told_of cb, t'))
unfolding on_notice on_core_reset on_core_init on_rf_discover_map on_rf_discover on_rf_deactivate
    set_nci_response
on_response cb_core_reset ptr t n m r s = (
  record (set_nci_response 0 (uint16_id 2 0) ptr t) { state = init_init },
  (refl, refl, refl, refl, refl),
  ground arith,
)
on_response cb_core_init ptr t n m r s = (
  record (set_nci_response 0 (uint16_id 2 1) ptr t) { state = init_done },
  (refl, refl, refl, refl, refl),
  ground arith,
)
on_response cb_rf_discover_map ptr t n m r s = (
  record (set_nci_response 0 (uint16_id 2 0) ptr t) { state = discover },
  (refl, refl, refl, refl, refl),
  ground arith,
)
on_response cb_rf_discover ptr t n m r s = (
  record (set_nci_response 0 (uint16_id 2 3) ptr t) { state = discover_ntf },
  (refl, refl, refl, refl, refl),
  ground arith,
)
on_response cb_rf_deactivate ptr t n m r s = (
  record (set_nci_response 0 (uint16_id 2 6) ptr t) { state = deactivate_rsp },
  (refl, refl, refl, refl, refl),
  ground arith,
)
on_response cb_rf_discover_ntf ptr t n m r s = elim s [ ]
on_response cb_rf_deactivate_ntf ptr t n m r s = elim s [ ]
on_response cb_data ptr t n m r s = elim s [ ]
on_response cb_error ptr t n m r s = elim s [ ]

module _ (hw : NfcHw) where
  open hw use {World}

  -- A turn of the NCI layer that returns, with the states and the call of the callback.
  abbrev pub Turns : Callback → NfcTags → NfcNci → World → World → Type 0
  Turns cb t n w w' =
      (t' : NfcTags) × (n' : NfcNci) × Answered cb t t'
      × (n'.state ≡ state_after cb n.state)
      × (n'.registered ≡ n.registered)
      × (nci_turn hw t n w ≡ done (told_of cb, t', n', w'))

  -- With an application and a client registered, a turn of the NCI layer on a successful response that it
  -- waits for returns: both layers are in the states that the response leads to, and the application
  -- gets its call, if that response has one.
  pub nci_turn-Turns :
      (cb : Callback) (p : Packet) (t : NfcTags) (n : NfcNci) (w w' : World)
      → t.registered ≡ true
      → n.registered ≡ true
      → Gives hw p w w'
      → Success (record n { rx_buf = received p n.rx_buf }) cb
      → Turns cb t n w w'
  unfolding nci_turn deliver
  nci_turn-Turns cb p t n w w' r k g s =
      let m = record n { rx_buf = received p n.rx_buf } in
      let (c, n', e, ec, es, ei, st, reg) = handle_packet-Calls cb m s in
      let (t', a, f) = on_response cb c.data_ptr t n' m r s in
      let same : c ≡ record { callback = cb; status = 0; id = id_of cb; data_ptr = c.data_ptr } =
        ground arith in
      (t', n', a, st, reg, rw (handle_event-Gives hw p n w w' k g, e, same, f))
