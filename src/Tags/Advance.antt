-- ===== src/Tags/Advance.antt =====
-- src/tags/NfcTags.cpp: the state after each callback, against an automaton over the calls.
use arduino_nfc.Common.{ℕ, ◌≡◌, subst, ◌==◌, if◌then◌else◌, Option, arith}
use arduino_nfc.Common.Outcome.{done, Returns, Returns-seq}
use arduino_nfc.Nci.Types.{
  NfcNci, DataPtr, Notice, Callback, cb_core_reset, cb_core_init, cb_rf_discover_map,
  cb_rf_discover, cb_rf_discover_ntf, cb_rf_deactivate, cb_rf_deactivate_ntf, cb_data, cb_error,
}
use arduino_nfc.Nci.Header.{uint16_id}
use arduino_nfc.Nci.Events.Promises.{Promises}
use arduino_nfc.Tags.Types.{
  AppCall, TagsState, init_init, init_done, discover, discover_ntf, discover_activated,
  deactivate_rsp, NfcTags,
}
use arduino_nfc.Tags.Interface.{intf_handle_data}
use arduino_nfc.Tags.Stack.{Called, identify_tag, set_nci_response}
use arduino_nfc.Tags.Callbacks.{
  on_core_reset, on_core_init, on_rf_discover_map, on_rf_discover, on_rf_discover_ntf,
  on_rf_deactivate, on_rf_deactivate_ntf, on_data, on_error, on_notice, goes_to, succeeds,
}
use arduino_nfc.Tags.Coupling.{identify_tag-state}

-- The state that a successful call leads to.
abbrev pub target : Callback → TagsState → TagsState
target cb_core_reset s = init_init
target cb_core_init s = init_done
target cb_rf_discover_map s = discover
target cb_rf_discover s = discover_ntf
target cb_rf_discover_ntf s = discover_activated
target cb_rf_deactivate s = deactivate_rsp
target cb_rf_deactivate_ntf s = discover_ntf
target cb_data s = s
target cb_error s = s

abbrev pub next_state : Notice → TagsState → TagsState
next_state c s = if c.status == 0 then target c.callback s else s

module _ (status id : ℕ) (ptr : DataPtr) (t : NfcTags) (m n : NfcNci) where
  abbrev here : Callback → Notice
  here cb = record { callback = cb; status = status; id = id; data_ptr = ptr }

  abbrev Advances : Callback → Called → Type 0
  Advances cb = Returns (λ r. r.1.state ≡ next_state (here cb) t.state)

  discover_ntf-Advances :
      Promises m (here cb_rf_discover_ntf) n
      → Advances cb_rf_discover_ntf (on_rf_discover_ntf status id ptr t n)
  unfolding on_rf_discover_ntf set_nci_response uint16_id
  discover_ntf-Advances p =
      Returns-seq (λ t'. t'.state ≡ activated.state)
        (λ r. r.1.state ≡ next_state (here cb_rf_discover_ntf) t.state)
        (identify_tag ptr activated n) _ (identify_tag-state ptr activated n) (λ t' k. ground arith)
    where
      activated : NfcTags
      activated =
          goes_to (succeeds status id (uint16_id 3 5)) discover_activated
            (set_nci_response status id ptr t)

  notice-Advances : (cb : Callback) → Promises m (here cb) n → Advances cb (on_notice (here cb) t n)
  unfolding on_notice on_core_reset on_core_init on_rf_discover_map on_rf_discover on_rf_deactivate
      on_rf_deactivate_ntf on_data on_error set_nci_response intf_handle_data uint16_id
  notice-Advances cb_core_reset p = ground arith
  notice-Advances cb_core_init p = ground arith
  notice-Advances cb_rf_discover_map p = ground arith
  notice-Advances cb_rf_discover p = ground arith
  notice-Advances cb_rf_discover_ntf p = discover_ntf-Advances p
  notice-Advances cb_rf_deactivate p = ground arith
  notice-Advances cb_rf_deactivate_ntf p = ground arith
  notice-Advances cb_data p = ground arith
  notice-Advances cb_error p = ground arith

-- A call that keeps its promise, and that returns, leaves the state that the automaton reaches: the
-- target of the callback on success, and the unchanged state on failure.
pub on_notice-next_state :
    (c : Notice) (t : NfcTags) (m n : NfcNci) (result : Option AppCall) (t' : NfcTags)
    → Promises m c n
    → on_notice c t n ≡ done (result, t')
    → t'.state ≡ next_state c t.state
on_notice-next_state c t m n result t' p e =
    subst (Returns (λ r. r.1.state ≡ next_state c t.state)) e
      (notice-Advances c.status c.id c.data_ptr t m n c.callback p)
