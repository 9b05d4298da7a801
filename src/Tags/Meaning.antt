-- ===== src/Tags/Meaning.antt =====
-- src/tags/NfcTags.cpp: what each call of the application says of the tag API.
use arduino_nfc.Common.{ℕ, ◌≡◌, ◌∙◌, refl, sym, subst, if_rule, Option, none, some, arith}
use arduino_nfc.Common.Outcome.{Returns, Returns-seq, Returns-and}
use arduino_nfc.Nci.Types.{
  NfcNci, DataPtr, Notice, Callback, status_ok, cb_core_reset, cb_core_init, cb_rf_discover_map,
  cb_rf_discover, cb_rf_discover_ntf, cb_rf_deactivate, cb_rf_deactivate_ntf, cb_data, cb_error,
}
use arduino_nfc.Nci.Header.{uint16_id}
use arduino_nfc.Tags.Types.{
  NfcTags, AppCall, Type2, TagIntf, no_tag, to_tag2, to_mifare, init_init, init_done, discover,
  discover_ntf, discover_activated, deactivate_rsp, cb_reset, cb_discover, cb_discover_ntf,
  cb_deactivate,
}
use arduino_nfc.Tags.Type2
use arduino_nfc.Tags.Interface.{intf_handle_data}
use arduino_nfc.Tags.Stack.{identify_tag, set_nci_response, is_tag}
use arduino_nfc.Tags.Callbacks.{
  on_core_reset, on_core_init, on_rf_discover_map, on_rf_discover, on_rf_discover_ntf,
  on_rf_deactivate, on_rf_deactivate_ntf, on_data, on_error, on_notice, goes_to, succeeds, settled,
}
use arduino_nfc.Tags.Coupling.{identify_tag-state}
use arduino_nfc.Tags.Busy.{Sound}
use arduino_nfc.Tags.Told.{
  MeansOf, Means, Tells, enters-Sound, set_nci_response-Sound, goes_to-Sound, tell-Tells,
  goes_to_settled, identify_tag-Sound, Handed, handle_data-Handed, resumes-Sound,
}

module _ (status id : ℕ) (ptr : DataPtr) (t : NfcTags) (o : Sound t) where
  abbrev noted : NfcTags
  noted = set_nci_response status id ptr t

  noted-Sound : Sound noted
  noted-Sound = set_nci_response-Sound status id ptr t o

  on_core_reset-Tells : Tells (on_core_reset status id ptr t)
  unfolding on_core_reset
  on_core_reset-Tells =
      if_rule Tells (succeeds status id (uint16_id 2 0))
        (λ e. enters-Sound init_init noted (ground arith) (ground arith) noted-Sound)
        (λ e. tell-Tells cb_deactivate _ _ noted noted-Sound)

  on_core_init-Tells : Tells (on_core_init status id ptr t)
  unfolding on_core_init
  on_core_init-Tells = tell-Tells cb_reset (settled status id (uint16_id 2 1)) _ _ (
    goes_to-Sound (succeeds status id (uint16_id 2 1)) init_done noted (ground arith) (ground arith)
        noted-Sound,
    goes_to_settled status id _ init_done noted,
  )

  on_rf_discover_map-Tells : Tells (on_rf_discover_map status id ptr t)
  unfolding on_rf_discover_map
  on_rf_discover_map-Tells =
      if_rule Tells (succeeds status id (uint16_id 2 0))
        (λ e. enters-Sound discover noted (ground arith) (ground arith) noted-Sound)
        (λ e. tell-Tells cb_deactivate _ _ noted noted-Sound)

  on_rf_discover-Tells : Tells (on_rf_discover status id ptr t)
  unfolding on_rf_discover
  on_rf_discover-Tells = tell-Tells cb_discover (settled status id (uint16_id 2 3)) _ _ (
    goes_to-Sound (succeeds status id (uint16_id 2 3)) discover_ntf noted (ground arith)
        (ground arith) noted-Sound,
    goes_to_settled status id _ discover_ntf noted,
  )

  on_rf_discover_ntf-Tells : (n : NfcNci) → Tells (on_rf_discover_ntf status id ptr t n)
  unfolding on_rf_discover_ntf
  on_rf_discover_ntf-Tells n =
      Returns-seq (λ t'. Sound t' × (t'.state ≡ active.state)) (λ r. Means r.0 r.1) _ _
        (Returns-and Sound (λ t'. t'.state ≡ active.state) (identify_tag ptr active n)
          (identify_tag-Sound ptr active n (
            goes_to-Sound (succeeds status id (uint16_id 3 5)) discover_activated noted
              (ground arith) (ground arith) noted-Sound))
          (identify_tag-state ptr active n))
        (λ t' k.
          tell-Tells cb_discover_ntf (settled status id (uint16_id 3 5)) _ t'
            (k.0, λ h. k.1 ∙ goes_to_settled status id _ discover_activated noted h))
    where
      active : NfcTags
      active = goes_to (succeeds status id (uint16_id 3 5)) discover_activated noted

  on_rf_deactivate-Tells : Tells (on_rf_deactivate status id ptr t)
  unfolding on_rf_deactivate
  on_rf_deactivate-Tells =
      if_rule Tells (succeeds status id (uint16_id 2 6))
        (λ e. enters-Sound deactivate_rsp noted (ground arith) (ground arith) noted-Sound)
        (λ e. tell-Tells cb_deactivate _ _ noted noted-Sound)

  on_rf_deactivate_ntf-Tells : Tells (on_rf_deactivate_ntf status id ptr t)
  unfolding on_rf_deactivate_ntf
  on_rf_deactivate_ntf-Tells = tell-Tells cb_deactivate (settled status id (uint16_id 3 6)) _ _ (
      if_rule Sound (succeeds status id (uint16_id 3 6)) (λ e. resumes-Sound noted noted-Sound)
        (λ e. noted-Sound))

  intf_handle_data-Tells :
      (i : TagIntf) (n : NfcNci) → t.intf ≡ i → Tells (intf_handle_data status_ok ptr t n)
  unfolding intf_handle_data
  intf_handle_data-Tells no_tag n e = ground arith
  intf_handle_data-Tells to_tag2 n e = rw e (
      Returns-seq (Handed t.tag2) (λ r. Means r.0 r.1) (Type2.handle_data status_ok ptr t.tag2 n) _
        (handle_data-Handed ptr t.tag2 n) (λ r h. handed r.0 r.1 h))
    where
      handed :
          (c : Option AppCall) (t2 : Type2)
          → Handed t.tag2 (c, t2)
          → Means c (record t { intf = to_tag2; tag2 = t2 })
      handed none t2 h = record {
        registered = o.registered;
        tag_registered = rw h o.tag_registered;
        settled = o.settled;
        busy = rw h o.busy;
      }
      handed (some c) t2 h =
          subst (λ cb. MeansOf cb c (record t { intf = to_tag2; tag2 = t2 })) (sym h.1)
            (record {
              registered = o.registered;
              tag_registered = h.0 ∙ o.tag_registered;
              settled = o.settled;
              status = h.2;
              id = h.3;
              dump = h.4;
              given = h.5;
              more = h.6;
            })
  intf_handle_data-Tells to_mifare n e = rw e (record {
    registered = o.registered;
    tag_registered = o.tag_registered;
    settled = o.settled;
    busy = o.busy;
  })

on_data-Tells :
    (id : ℕ) (ptr : DataPtr) (t : NfcTags) (n : NfcNci)
    → Sound t
    → Tells (on_data status_ok id ptr t n)
unfolding on_data
on_data-Tells id ptr t n o =
    let t' = set_nci_response status_ok id ptr t in
    let o' = set_nci_response-Sound status_ok id ptr t o in
    if_rule Tells (is_tag t'.intf)
      (λ e. intf_handle_data-Tells status_ok id ptr t' o' t'.intf n refl) (λ e. o')

notice-Tells :
    (cb : Callback) (status id : ℕ) (ptr : DataPtr) (t : NfcTags) (n : NfcNci)
    → (cb ≡ cb_data → status ≡ status_ok)
    → Sound t
    → Tells (on_notice (record { callback = cb; status = status; id = id; data_ptr = ptr }) t n)
unfolding on_notice on_error
notice-Tells cb_core_reset status id ptr t n h o = on_core_reset-Tells status id ptr t o
notice-Tells cb_core_init status id ptr t n h o = on_core_init-Tells status id ptr t o
notice-Tells cb_rf_discover_map status id ptr t n h o = on_rf_discover_map-Tells status id ptr t o
notice-Tells cb_rf_discover status id ptr t n h o = on_rf_discover-Tells status id ptr t o
notice-Tells cb_rf_discover_ntf status id ptr t n h o = on_rf_discover_ntf-Tells status id ptr t o n
notice-Tells cb_rf_deactivate status id ptr t n h o = on_rf_deactivate-Tells status id ptr t o
notice-Tells cb_rf_deactivate_ntf status id ptr t n h o =
    on_rf_deactivate_ntf-Tells status id ptr t o
notice-Tells cb_data status id ptr t n h o =
    subst (λ s. Tells (on_data s id ptr t n)) (sym (h refl)) (on_data-Tells id ptr t n o)
notice-Tells cb_error status id ptr t n h o = o

-- A call of the application that follows a packet, given a registered application and no ended dump
-- before, and the status OK for data.
pub on_notice-Means :
    (c : Notice) (t : NfcTags) (n : NfcNci)
    → (c.callback ≡ cb_data → c.status ≡ status_ok)
    → Sound t
    → Returns (λ r. Means r.0 r.1) (on_notice c t n)
on_notice-Means c t n h o = notice-Tells c.callback c.status c.id c.data_ptr t n h o
