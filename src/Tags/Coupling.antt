-- ===== src/Tags/Coupling.antt =====
-- src/tags/NfcTags.cpp over src/nci/NfcNci.cpp: the two state machines stay in step.
use arduino_nfc.Common.{ℕ, ◌≡◌, sym, subst, Option, arith}
use arduino_nfc.Common.Outcome.{done, Returns, Returns-seq, Returns-map}
use arduino_nfc.Nci.Types.{
  NfcNci, NciState, state_none, rfst_reset, rfst_idle, rfst_discovery, rfst_poll_active, DataPtr,
  Notice, Callback, cb_core_reset, cb_core_init, cb_rf_discover_map, cb_rf_discover,
  cb_rf_discover_ntf, cb_rf_deactivate, cb_rf_deactivate_ntf, cb_data, cb_error,
}
use arduino_nfc.Nci.Header.{uint16_id}
use arduino_nfc.Nci.Events.Promises.{Promises}
use arduino_nfc.Tags.Types.{
  AppCall, TagsState, tags_none, init_reset, init_init, init_done, discover_map, discover,
  discover_ntf, discover_activated, deactivate, deactivate_rsp, deactivate_ntf, dumping, dump_rsp,
  NfcTags,
}
use arduino_nfc.Tags.Interface.{intf_handle_data}
use arduino_nfc.Tags.Stack.{Called, identify_tag, choose, set_nci_response}
use arduino_nfc.Tags.Callbacks.{
  on_core_reset, on_core_init, on_rf_discover_map, on_rf_discover, on_rf_discover_ntf,
  on_rf_deactivate, on_rf_deactivate_ntf, on_data, on_error, on_notice, goes_to, succeeds,
}

-- The state of the NCI layer under each state of the tag API. After `cmdReset` it may be any.
abbrev pub Coupled : TagsState → NciState → Type 0
Coupled tags_none s = s ≡ state_none
Coupled init_reset s = Unit
Coupled init_init s = s ≡ rfst_reset
Coupled init_done s = s ≡ rfst_idle
Coupled discover_map s = s ≡ rfst_idle
Coupled discover s = s ≡ rfst_idle
Coupled discover_ntf s = s ≡ rfst_discovery
Coupled discover_activated s = s ≡ rfst_poll_active
Coupled deactivate s = s ≡ rfst_poll_active
Coupled deactivate_rsp s = s ≡ rfst_discovery
Coupled deactivate_ntf s = ⊥
Coupled dumping s = s ≡ rfst_poll_active
Coupled dump_rsp s = ⊥

abbrev pub InStep : NfcTags → NfcNci → Type 0
InStep t n = Coupled t.state n.state

abbrev StaysIn : NfcNci → Called → Type 0
StaysIn n = Returns (λ r. InStep r.1 n)

moved : (t : TagsState) {s s' : NciState} → s' ≡ s → Coupled t s → Coupled t s'
moved t e h = subst (Coupled t) (sym e) h

-- The tag that is identified leaves the state.
pub identify_tag-state :
    (ptr : DataPtr) (t : NfcTags) (n : NfcNci)
    → Returns (λ t'. t'.state ≡ t.state) (identify_tag ptr t n)
unfolding identify_tag choose
identify_tag-state ptr t n = ground arith

module _ (status id : ℕ) (ptr : DataPtr) (t : NfcTags) (m n : NfcNci) where
  abbrev here : Callback → Notice
  here cb = record { callback = cb; status = status; id = id; data_ptr = ptr }

  on_core_reset-StaysIn :
      Promises m (here cb_core_reset) n → InStep t m → StaysIn n (on_core_reset status id ptr t)
  unfolding on_core_reset set_nci_response uint16_id
  on_core_reset-StaysIn p h = ground (arith, moved t.state {s = m.state} {s' = n.state})

  on_core_init-StaysIn :
      Promises m (here cb_core_init) n → InStep t m → StaysIn n (on_core_init status id ptr t)
  unfolding on_core_init set_nci_response uint16_id
  on_core_init-StaysIn p h = ground (arith, moved t.state {s = m.state} {s' = n.state})

  on_rf_discover_map-StaysIn :
      Promises m (here cb_rf_discover_map) n
      → InStep t m
      → StaysIn n (on_rf_discover_map status id ptr t)
  unfolding on_rf_discover_map set_nci_response uint16_id
  on_rf_discover_map-StaysIn p h = ground (arith, moved t.state {s = m.state} {s' = n.state})

  on_rf_discover-StaysIn :
      Promises m (here cb_rf_discover) n → InStep t m → StaysIn n (on_rf_discover status id ptr t)
  unfolding on_rf_discover set_nci_response uint16_id
  on_rf_discover-StaysIn p h = ground (arith, moved t.state {s = m.state} {s' = n.state})

  on_rf_deactivate-StaysIn :
      Promises m (here cb_rf_deactivate) n
      → InStep t m
      → StaysIn n (on_rf_deactivate status id ptr t)
  unfolding on_rf_deactivate set_nci_response uint16_id
  on_rf_deactivate-StaysIn p h = ground (arith, moved t.state {s = m.state} {s' = n.state})

  on_rf_deactivate_ntf-StaysIn :
      Promises m (here cb_rf_deactivate_ntf) n
      → InStep t m
      → StaysIn n (on_rf_deactivate_ntf status id ptr t)
  unfolding on_rf_deactivate_ntf set_nci_response uint16_id
  on_rf_deactivate_ntf-StaysIn p h = ground (arith, moved t.state {s = m.state} {s' = n.state})

  on_rf_discover_ntf-StaysIn :
      Promises m (here cb_rf_discover_ntf) n
      → InStep t m
      → StaysIn n (on_rf_discover_ntf status id ptr t n)
  unfolding on_rf_discover_ntf set_nci_response uint16_id
  on_rf_discover_ntf-StaysIn p h =
      Returns-seq (λ t'. InStep t' n) (λ r. InStep r.1 n) _ _
        (Returns-map (λ t'. t'.state ≡ activated.state) (λ t'. InStep t' n)
          (identify_tag ptr activated n)
          (λ t' e. subst (λ s. Coupled s n.state) (sym e) activated-InStep)
          (identify_tag-state ptr activated n))
        (λ t' k. ground arith)
    where
      activated : NfcTags
      activated =
          goes_to (succeeds status id (uint16_id 3 5)) discover_activated
            (set_nci_response status id ptr t)

      activated-InStep : InStep activated n
      activated-InStep = ground (arith, moved t.state {s = m.state} {s' = n.state})

  on_data-StaysIn : Promises m (here cb_data) n → InStep t m → StaysIn n (on_data status id ptr t n)
  unfolding on_data set_nci_response intf_handle_data
  on_data-StaysIn p h = ground (arith, moved t.state {s = m.state} {s' = n.state})

  on_error-StaysIn : Promises m (here cb_error) n → InStep t m → StaysIn n (on_error t)
  unfolding on_error
  on_error-StaysIn p h = moved t.state p.2 h

  notice-StaysIn :
      (cb : Callback) → Promises m (here cb) n → InStep t m → StaysIn n (on_notice (here cb) t n)
  unfolding on_notice
  notice-StaysIn cb_core_reset p h = on_core_reset-StaysIn p h
  notice-StaysIn cb_core_init p h = on_core_init-StaysIn p h
  notice-StaysIn cb_rf_discover_map p h = on_rf_discover_map-StaysIn p h
  notice-StaysIn cb_rf_discover p h = on_rf_discover-StaysIn p h
  notice-StaysIn cb_rf_discover_ntf p h = on_rf_discover_ntf-StaysIn p h
  notice-StaysIn cb_rf_deactivate p h = on_rf_deactivate-StaysIn p h
  notice-StaysIn cb_rf_deactivate_ntf p h = on_rf_deactivate_ntf-StaysIn p h
  notice-StaysIn cb_data p h = on_data-StaysIn p h
  notice-StaysIn cb_error p h = on_error-StaysIn p h

-- A call that keeps its promise, and that returns, leaves the two layers in step if they were in step
-- before the packet.
pub on_notice-InStep :
    (c : Notice) (t : NfcTags) (m n : NfcNci) (result : Option AppCall) (t' : NfcTags)
    → Promises m c n
    → InStep t m
    → on_notice c t n ≡ done (result, t')
    → InStep t' n
on_notice-InStep c t m n result t' p h e =
    subst (StaysIn n) e (notice-StaysIn c.status c.id c.data_ptr t m n c.callback p h)
