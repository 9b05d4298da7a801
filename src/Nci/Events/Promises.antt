-- ===== src/Nci/Events/Promises.antt =====
-- src/nci/NfcNci.h, class NfcNciCb: what a client may rely on when one of its callbacks is called.
use arduino_nfc.Common.{ℕ, ◌<◌, ◌≡◌, ◌≢◌, refl, subst, Option, none, some, arith}
use arduino_nfc.Common.Outcome.{Outcome, done, fault, hang, Returns}
use arduino_nfc.Nci.Header.{uint16_id}
use arduino_nfc.Nci.Types.{
  NfcNci, Notice, NciState, DataPtr, Callback, cb_core_reset, cb_core_init, cb_rf_discover_map,
  cb_rf_discover, cb_rf_discover_ntf, cb_rf_deactivate, cb_rf_deactivate_ntf, cb_data, cb_error,
  null, at_reset, at_rf_intf, at_deactivate, at_rx, rfst_reset, rfst_idle, rfst_discovery,
  rfst_poll_active,
}
use arduino_nfc.Nci.Responses.{
  rsp_core_reset, rsp_core_init, rsp_rf_discover_map, rsp_rf_discover, ntf_rf_intf_activated,
  rsp_rf_deactivate, ntf_rf_deactivate,
}
use arduino_nfc.Nci.Events.Routes.{Routes, handle_packet_rule}
use arduino_nfc.Nci.Events.{report, answer, handle_data_event, handle_packet}

-- The call has this identifier. On success the object is in this state and the data are there; on
-- failure the object is in the state in which it got the packet, `m` being the object then.
abbrev pub Settles : ℕ → NciState → DataPtr → NfcNci → Notice → NfcNci → Type 0
Settles id s ptr m c n =
    (c.id ≡ id)
    × (c.status ≡ 0 → (n.state ≡ s) × (c.data_ptr ≡ ptr))
    × (c.status ≢ 0 → n.state ≡ m.state)

abbrev pub PromisesOf : Callback → NfcNci → Notice → NfcNci → Type 0
PromisesOf cb_core_reset m c n = Settles 0x4000 rfst_reset at_reset m c n
PromisesOf cb_core_init m c n = Settles 0x4001 rfst_idle null m c n
PromisesOf cb_rf_discover_map m c n = Settles 0x4000 rfst_idle null m c n
PromisesOf cb_rf_discover m c n = Settles 0x4003 rfst_discovery null m c n
PromisesOf cb_rf_discover_ntf m c n = Settles 0x6005 rfst_poll_active at_rf_intf m c n
PromisesOf cb_rf_deactivate m c n = Settles 0x4006 rfst_discovery null m c n
PromisesOf cb_rf_deactivate_ntf m c n = Settles 0x6006 rfst_discovery at_deactivate m c n
PromisesOf cb_data m c n = (c.status ≡ 0) × (c.data_ptr ≡ at_rx 2) × (n.state ≡ m.state)
PromisesOf cb_error m c n = (c.status ≢ 0) × (c.data_ptr ≡ null) × (n.state ≡ m.state)

-- What a call of a callback promises, with the objects before the packet and at the call. Each kind
-- of response has one identifier; a success goes with the state that the response leads to and with
-- its own data; anything else leaves the state, and an error has no data.
abbrev pub Promises : NfcNci → Notice → NfcNci → Type 0
Promises m c n = PromisesOf c.callback m c n

-- A packet that leads to no call leaves the state.
abbrev pub PromisesAll : NfcNci → Option Notice × NfcNci → Type 0
PromisesAll m (none, n) = n.state ≡ m.state
PromisesAll m (some c, n) = Promises m c n

-- The state and data that a handler leaves, by the status that it gives.
abbrev Leaves : NfcNci → NciState → DataPtr → ℕ × NfcNci → Type 0
Leaves m s ptr (status, n) =
    (status ≡ 0 → (n.state ≡ s) × (n.data_ptr ≡ ptr)) × (status ≢ 0 → n.state ≡ m.state)

module _ (n : NfcNci) where
  rsp_core_reset-Leaves : Returns (Leaves n rfst_reset at_reset) (rsp_core_reset 2 n)
  unfolding rsp_core_reset
  rsp_core_reset-Leaves = ground arith

  rsp_core_init-Leaves : Returns (Leaves n rfst_idle null) (rsp_core_init 2 n)
  unfolding rsp_core_init
  rsp_core_init-Leaves = ground arith

  rsp_rf_discover_map-Leaves : Returns (Leaves n rfst_idle null) (rsp_rf_discover_map 2 n)
  unfolding rsp_rf_discover_map
  rsp_rf_discover_map-Leaves = ground arith

  rsp_rf_discover-Leaves : Returns (Leaves n rfst_discovery null) (rsp_rf_discover 2 n)
  unfolding rsp_rf_discover
  rsp_rf_discover-Leaves = ground arith

  rsp_rf_deactivate-Leaves : Returns (Leaves n rfst_discovery null) (rsp_rf_deactivate 2 n)
  unfolding rsp_rf_deactivate
  rsp_rf_deactivate-Leaves = ground arith

  ntf_rf_intf_activated-Leaves :
      Returns (Leaves n rfst_poll_active at_rf_intf) (ntf_rf_intf_activated 2 n)
  unfolding ntf_rf_intf_activated
  ntf_rf_intf_activated-Leaves = ground arith

  ntf_rf_deactivate-Leaves : Returns (Leaves n rfst_discovery at_deactivate) (ntf_rf_deactivate 2 n)
  unfolding ntf_rf_deactivate
  ntf_rf_deactivate-Leaves = ground arith

abbrev answered : Callback → ℕ → ℕ → NfcNci → Notice
answered cb id status n = record { callback = cb; status = status; id = id; data_ptr = n.data_ptr }

answer-Promises :
    (cb : Callback) (mt oid : ℕ) (s : NciState) (ptr : DataPtr) (m : NfcNci)
    (r : Outcome (ℕ × NfcNci))
    → ((status : ℕ) (n : NfcNci)
        → Settles (uint16_id mt oid) s ptr m (answered cb (uint16_id mt oid) status n) n
        → Promises m (answered cb (uint16_id mt oid) status n) n)
    → Returns (Leaves m s ptr) r
    → Returns (PromisesAll m) (answer cb mt oid r)
unfolding answer
answer-Promises cb mt oid s ptr m (done (status, n)) f h = f status n (refl, h.0, h.1)
answer-Promises cb mt oid s ptr m fault f h = tt
answer-Promises cb mt oid s ptr m hang f h = tt

routes : (n : NfcNci) → Routes (Returns (PromisesAll n)) n
unfolding report handle_data_event uint16_id
routes n = record {
  on_report = λ status mt oid z h. (λ e. omega arith, refl, refl);
  on_silent = λ h. refl;
  on_data = λ h. (refl, refl, refl);
  on_core_reset = λ a.
      answer-Promises cb_core_reset 2 0 rfst_reset at_reset n (rsp_core_reset 2 n) (λ s m h. h)
        (rsp_core_reset-Leaves n);
  on_core_init = λ a.
      answer-Promises cb_core_init 2 1 rfst_idle null n (rsp_core_init 2 n) (λ s m h. h)
        (rsp_core_init-Leaves n);
  on_discover_map = λ a.
      answer-Promises cb_rf_discover_map 2 0 rfst_idle null n (rsp_rf_discover_map 2 n) (λ s m h. h)
        (rsp_rf_discover_map-Leaves n);
  on_discover = λ a.
      answer-Promises cb_rf_discover 2 3 rfst_discovery null n (rsp_rf_discover 2 n) (λ s m h. h)
        (rsp_rf_discover-Leaves n);
  on_deactivate = λ a.
      answer-Promises cb_rf_deactivate 2 6 rfst_discovery null n (rsp_rf_deactivate 2 n)
        (λ s m h. h) (rsp_rf_deactivate-Leaves n);
  on_activated = λ a.
      answer-Promises cb_rf_discover_ntf 3 5 rfst_poll_active at_rf_intf n
        (ntf_rf_intf_activated 2 n) (λ s m h. h) (ntf_rf_intf_activated-Leaves n);
  on_deactivated = λ a.
      answer-Promises cb_rf_deactivate_ntf 3 6 rfst_discovery at_deactivate n
        (ntf_rf_deactivate 2 n) (λ s m h. h) (ntf_rf_deactivate-Leaves n);
}

-- Whatever packet is in the buffer, and in whatever state the object is: if the packet handler
-- returns, then a call of a callback keeps that callback's promise (the identifier, the state and the
-- data that go with a success, the unchanged state otherwise), and without a call the state is
-- unchanged.
pub handle_packet-Promises :
    (n : NfcNci) (r : Option Notice × NfcNci)
    → n.rx_buf 0 < 256
    → n.rx_buf 1 < 256
    → handle_packet n ≡ done r
    → PromisesAll n r
handle_packet-Promises n r h0 h1 e =
    subst (Returns (PromisesAll n)) e
      (handle_packet_rule (Returns (PromisesAll n)) n (routes n) h0 h1)
