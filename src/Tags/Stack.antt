-- ===== src/Tags/Stack.antt =====
-- src/tags/NfcTags.cpp: the tag API. Its callbacks for the NCI layer and its event handlers call the
-- application at most once, as their last act: the call is part of their result. Log lines are left
-- out.
use arduino_nfc.Common.{
  ℕ, ◌==◌, ◌&&◌, not, if◌then◌else◌, bit_and, Bool, true, false, Option, none, some, List, [], ◌∷◌,
}
use arduino_nfc.Common.Outcome.{Outcome, done, fault, ◌>>=◌}
use arduino_nfc.Nci.Constants.{
  protocol_t1t, protocol_t2t, protocol_t3t, interface_mode_poll, interface_frame,
  discovery_type_poll_f, discovery_frequency_always,
}
use arduino_nfc.Nci.Types.{
  type_poll_a, NfcNci, RfIntf, DataPtr, null, at_rf_intf, DiscoverMap, DiscoverConf,
}
use arduino_nfc.Tags.Types.{
  tags_status_ok, tags_status_rejected, tags_status_failed, tags_id_none, tags_id_reset,
  tags_id_discover, tags_id_deactivate, tags_id_dump, NciRsp, AppCall, Type2, TagsState, tags_none,
  init_reset, init_done, discover_map, discover_activated, deactivate, dumping, TagIntf, no_tag,
  to_tag2, to_mifare, NfcTags,
}
use arduino_nfc.Tags.Interface.{construct_mifare, intf_cmd_dump}
use arduino_nfc.Tags.Type2.{init_intf, init_tag}

abbrev pub discover_maps : List DiscoverMap
discover_maps =
    record { protocol = protocol_t1t; mode = interface_mode_poll; intf_type = interface_frame }
    ∷ record { protocol = protocol_t2t; mode = interface_mode_poll; intf_type = interface_frame }
    ∷ record { protocol = protocol_t3t; mode = interface_mode_poll; intf_type = interface_frame }
    ∷ []

abbrev pub discover_confs : List DiscoverConf
discover_confs =
    record { mode = type_poll_a; freq = discovery_frequency_always }
    ∷ record { mode = discovery_type_poll_f; freq = discovery_frequency_always }
    ∷ []

-- The constructor; `_nciRsp` is left indeterminate.
unfoldable pub construct_tags : NciRsp → Type2 → NfcTags
construct_tags rsp tag2 = record {
  state = tags_none;
  id = tags_id_none;
  registered = false;
  nci_rsp = rsp;
  tag2 = tag2;
  mifare = construct_mifare;
  intf = no_tag;
}

-- `init(cb)`; the argument is `cb != NULL`.
unfoldable pub init : Bool → NfcTags → NfcTags
init cb t = record t { registered = cb; tag2 = init_intf cb t.tag2 }

-- `setNciResponse`
unfoldable pub set_nci_response : ℕ → ℕ → DataPtr → NfcTags → NfcTags
set_nci_response status id ptr t = record t {
  nci_rsp = record { data_ptr = ptr; id = id; status = status };
}

-- `getInterface`
abbrev pub get_interface : NfcTags → TagIntf
get_interface t = t.intf

unfoldable pub cmd_reset : NfcTags → ℕ × NfcTags
cmd_reset t = (tags_status_ok, record t { state = init_reset; id = tags_id_reset; intf = no_tag })

unfoldable pub cmd_discover : NfcTags → ℕ × NfcTags
cmd_discover t = elim t.state [
  | init_done ↦ (tags_status_ok, record t { state = discover_map; id = tags_id_discover })
  | _ ↦ (tags_status_rejected, t)
]

abbrev deactivating : NfcTags → ℕ × NfcTags
deactivating t =
    (tags_status_ok, record t { state = deactivate; id = tags_id_deactivate; intf = no_tag })

unfoldable pub cmd_deactivate : NfcTags → ℕ × NfcTags
cmd_deactivate t = elim t.state [
  | discover_activated ↦ deactivating t
  | dumping ↦ deactivating t
  | _ ↦ (tags_status_rejected, t)
]

abbrev pub is_activated : TagsState → Bool
is_activated discover_activated = true
is_activated _ = false

abbrev pub is_tag : TagIntf → Bool
is_tag no_tag = false
is_tag _ = true

unfoldable pub cmd_dump : NfcTags → Outcome (ℕ × NfcTags)
cmd_dump t =
    if not (is_activated t.state)
    then done (tags_status_rejected, t)
    else if not (is_tag t.intf)
    then done (tags_status_failed, t)
    else (do
      (status, t') ← intf_cmd_dump t
      done (
          if not (status == tags_status_ok)
          then (tags_status_failed, t')
          else (tags_status_ok, record t' { state = dumping; id = tags_id_dump })))

abbrev pub Called : Type 0
Called = Outcome (Option AppCall × NfcTags)

-- The object of class tNCI_RF_INTF that `data` is cast to.
unfoldable pub rf_intf_at : DataPtr → NfcNci → Outcome (Option RfIntf)
rf_intf_at null n = done none
rf_intf_at at_rf_intf n = done (some n.rf_intf)
rf_intf_at _ n = fault

-- The tag that the object describes, if the code tells: `none` leaves `_p_tagIntf` as it was.
unfoldable pub classify : RfIntf → Option TagIntf
classify rf =
    let pa = rf.poll_a in
    if rf.specific_type == 0
    then (if pa.nfcid_len == 7
        then (if pa.nfcid 0 == 4 then some to_tag2 else none)
        else if pa.sel_res_len == 1
        then (if not (bit_and pa.sel_res 8 == 0) && not (bit_and pa.sel_res 16 == 0)
            then some to_mifare
            else none)
        else none)
    else some no_tag

-- `initTag` of the tag chosen, and `_p_tagIntf`.
unfoldable pub choose : DataPtr → Option TagIntf → NfcTags → NfcTags
choose ptr none t = t
choose ptr (some no_tag) t = record t { intf = no_tag }
choose ptr (some to_tag2) t = record t { tag2 = init_tag ptr t.tag2; intf = to_tag2 }
choose ptr (some to_mifare) t = record t { mifare = record { rf = ptr }; intf = to_mifare }

-- `identifyTag`
unfoldable pub identify_tag : DataPtr → NfcTags → NfcNci → Outcome NfcTags
identify_tag ptr t n = do
  rf ← rf_intf_at ptr n
  done (elim rf [ none ↦ t | some r ↦ choose ptr (classify r) t ])
