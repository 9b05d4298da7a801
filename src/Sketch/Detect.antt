-- ===== src/Sketch/Detect.antt =====
-- examples/TagDetect/TagDetect.ino: class NfcApps of the sketch that lets every tag go that it finds. Log
-- lines are left out, but not the calls for their arguments.
use arduino_nfc.Common.{ℕ, ◌==◌, not, if◌then◌else◌}
use arduino_nfc.Common.Outcome.{Outcome, done, ◌>>=◌}
use arduino_nfc.Nci.Types.{NfcNci}
use arduino_nfc.Tags.Types.{
  NfcTags, AppCall, cb_reset, cb_discover, cb_discover_ntf, cb_deactivate, cb_dump, tags_status_ok,
  tags_status_failed, tags_id_reset, tags_id_discover, tags_id_discover_activated,
  tags_id_deactivate,
}
use arduino_nfc.Tags.Interface.{get_type, intf_get_nfcid_len, intf_get_nfcid_buf}
use arduino_nfc.Tags.Stack.{cmd_reset, cmd_discover, cmd_deactivate, get_interface, is_tag}
use arduino_nfc.Sketch.{Sketch}
use arduino_nfc.Sketch.Dump.{is_bad}

pub data DetectState : Type 0 where
  st_reset st_reset_response st_discover st_discover_response st_discovering : DetectState
  st_deactivate st_deactivate_response st_error st_end : DetectState

-- The end of `handleEvent`, in a state with the result of its command.
abbrev pub proceeds : DetectState → ℕ × NfcTags → Outcome (DetectState × NfcTags)
proceeds s r = done (if not (r.0 == tags_status_ok) then st_error else s, r.1)

unfoldable pub detect_handle_event : DetectState → NfcTags → Outcome (DetectState × NfcTags)
detect_handle_event st_reset t = proceeds st_reset_response (cmd_reset t)
detect_handle_event st_discover t = proceeds st_discover_response (cmd_discover t)
detect_handle_event st_deactivate t = proceeds st_deactivate_response (cmd_deactivate t)
detect_handle_event st_error t = proceeds st_error (tags_status_failed, t)
detect_handle_event st_end t = proceeds st_end (tags_status_failed, t)
detect_handle_event s t = proceeds s (tags_status_ok, t)

unfoldable pub detect_cb_reset : ℕ → ℕ → DetectState
detect_cb_reset status id = if is_bad status id tags_id_reset then st_error else st_discover

unfoldable pub detect_cb_discover : ℕ → ℕ → DetectState
detect_cb_discover status id =
    if is_bad status id tags_id_discover then st_error else st_discovering

-- The state of an error is overwritten by the last assignment.
unfoldable pub detect_cb_discover_ntf : ℕ → ℕ → NfcTags → NfcNci → Outcome DetectState
detect_cb_discover_ntf status id t n =
    if is_bad status id tags_id_discover_activated
    then done st_deactivate
    else if is_tag (get_interface t)
    then (do
      type ← get_type (get_interface t)
      len ← intf_get_nfcid_len t n
      buf ← intf_get_nfcid_buf t n
      done st_deactivate)
    else done st_deactivate

unfoldable pub detect_cb_deactivate : ℕ → ℕ → DetectState
detect_cb_deactivate status id =
    if is_bad status id tags_id_deactivate then st_error else st_discovering

-- `cbDump` does nothing.
unfoldable pub detect_receive : AppCall → DetectState → NfcTags → NfcNci → Outcome DetectState
detect_receive c s t n = elim c.callback [
  | cb_reset ↦ done (detect_cb_reset c.status c.id)
  | cb_discover ↦ done (detect_cb_discover c.status c.id)
  | cb_discover_ntf ↦ detect_cb_discover_ntf c.status c.id t n
  | cb_deactivate ↦ done (detect_cb_deactivate c.status c.id)
  | cb_dump ↦ done s
]

abbrev pub detect_sketch : Sketch
detect_sketch = record {
  State = DetectState;
  start = st_reset;
  handle_event = detect_handle_event;
  receive = detect_receive;
}
