-- ===== src/Tags/Callbacks.antt =====
-- src/tags/NfcTags.cpp: the methods that the NCI layer calls back.
use arduino_nfc.Common.{ℕ, ◌==◌, ◌&&◌, if◌then◌else◌, Bool, none}
use arduino_nfc.Common.Outcome.{done, ◌>>=◌}
use arduino_nfc.Nci.Constants.{
  id_rsp_core_reset, id_rsp_core_init, id_rsp_rf_discover_map, id_rsp_rf_discover,
  id_ntf_rf_intf_activated, id_rsp_rf_deactivate, id_ntf_rf_deactivate,
}
use arduino_nfc.Nci.Types.{
  NfcNci, DataPtr, status_ok, Notice, cb_core_reset, cb_core_init, cb_rf_discover_map,
  cb_rf_discover, cb_rf_discover_ntf, cb_rf_deactivate, cb_rf_deactivate_ntf, cb_data, cb_error,
}
use arduino_nfc.Tags.Types.{
  tags_status_ok, tags_status_failed, tags_id_reset, tags_id_discover, tags_id_discover_activated,
  tags_id_deactivate, AppCallback, cb_reset, cb_discover, cb_discover_ntf, cb_deactivate, call,
  TagsState, init_init, init_done, discover, discover_ntf, discover_activated, deactivate_rsp,
  NfcTags, translate_nci_status,
}
use arduino_nfc.Tags.Interface.{intf_handle_data}
use arduino_nfc.Tags.Stack.{Called, set_nci_response, identify_tag, is_tag}

-- `status == NCI_STATUS_OK` and the identifier is the expected one.
abbrev pub succeeds : ℕ → ℕ → ℕ → Bool
succeeds status id expected = (status == status_ok) && (id == expected)

-- The status that is handed on by the callbacks that always call the application.
abbrev pub settled : ℕ → ℕ → ℕ → ℕ
settled status id expected =
    if status == status_ok
    then (if id == expected then tags_status_ok else tags_status_failed)
    else translate_nci_status status

abbrev pub goes_to : Bool → TagsState → NfcTags → NfcTags
goes_to b s t = if b then record t { state = s } else t

-- A last call of the application.
abbrev pub tell : AppCallback → ℕ → ℕ → NfcTags → Called
tell cb status id t = call t.registered cb status id none >>= λ c. done (c, t)

-- The callbacks that go on silently on success. On failure each calls `cbDeactivate`.
unfoldable pub on_core_reset : ℕ → ℕ → DataPtr → NfcTags → Called
on_core_reset status id ptr t =
    let t' = set_nci_response status id ptr t in
    if succeeds status id id_rsp_core_reset
    then done (none, record t' { state = init_init })
    else tell cb_deactivate (translate_nci_status status) tags_id_reset t'

unfoldable pub on_core_init : ℕ → ℕ → DataPtr → NfcTags → Called
on_core_init status id ptr t =
    tell cb_reset (settled status id id_rsp_core_init) tags_id_reset
      (goes_to (succeeds status id id_rsp_core_init) init_done (set_nci_response status id ptr t))

unfoldable pub on_rf_discover_map : ℕ → ℕ → DataPtr → NfcTags → Called
on_rf_discover_map status id ptr t =
    let t' = set_nci_response status id ptr t in
    if succeeds status id id_rsp_rf_discover_map
    then done (none, record t' { state = discover })
    else tell cb_deactivate (translate_nci_status status) tags_id_discover t'

unfoldable pub on_rf_discover : ℕ → ℕ → DataPtr → NfcTags → Called
on_rf_discover status id ptr t =
    tell cb_discover (settled status id id_rsp_rf_discover) tags_id_discover (
      goes_to (succeeds status id id_rsp_rf_discover) discover_ntf
        (set_nci_response status id ptr t))

-- The tag is looked for whatever the status is.
unfoldable pub on_rf_discover_ntf : ℕ → ℕ → DataPtr → NfcTags → NfcNci → Called
on_rf_discover_ntf status id ptr t n = do
  t' ←
      identify_tag ptr
        (goes_to (succeeds status id id_ntf_rf_intf_activated) discover_activated
          (set_nci_response status id ptr t))
        n
  tell cb_discover_ntf (settled status id id_ntf_rf_intf_activated) tags_id_discover_activated t'

unfoldable pub on_rf_deactivate : ℕ → ℕ → DataPtr → NfcTags → Called
on_rf_deactivate status id ptr t =
    let t' = set_nci_response status id ptr t in
    if succeeds status id id_rsp_rf_deactivate
    then done (none, record t' { state = deactivate_rsp })
    else tell cb_deactivate (translate_nci_status status) tags_id_deactivate t'

unfoldable pub on_rf_deactivate_ntf : ℕ → ℕ → DataPtr → NfcTags → Called
on_rf_deactivate_ntf status id ptr t =
    let t' = set_nci_response status id ptr t in
    tell cb_deactivate (settled status id id_ntf_rf_deactivate) tags_id_deactivate (
      if succeeds status id id_ntf_rf_deactivate
      then record t' { id = tags_id_discover; state = discover_ntf }
      else t')

unfoldable pub on_data : ℕ → ℕ → DataPtr → NfcTags → NfcNci → Called
on_data status id ptr t n =
    let t' = set_nci_response status id ptr t in
    if is_tag t'.intf then intf_handle_data status ptr t' n else done (none, t')

-- `cbError` logs and does nothing else.
unfoldable pub on_error : NfcTags → Called
on_error t = done (none, t)

-- The call of a callback by the NCI layer, whose object is then `n`.
unfoldable pub on_notice : Notice → NfcTags → NfcNci → Called
on_notice c t n = elim c.callback [
  | cb_core_reset ↦ on_core_reset c.status c.id c.data_ptr t
  | cb_core_init ↦ on_core_init c.status c.id c.data_ptr t
  | cb_rf_discover_map ↦ on_rf_discover_map c.status c.id c.data_ptr t
  | cb_rf_discover ↦ on_rf_discover c.status c.id c.data_ptr t
  | cb_rf_discover_ntf ↦ on_rf_discover_ntf c.status c.id c.data_ptr t n
  | cb_rf_deactivate ↦ on_rf_deactivate c.status c.id c.data_ptr t
  | cb_rf_deactivate_ntf ↦ on_rf_deactivate_ntf c.status c.id c.data_ptr t
  | cb_data ↦ on_data c.status c.id c.data_ptr t n
  | cb_error ↦ on_error t
]
