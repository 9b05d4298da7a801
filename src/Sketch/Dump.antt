-- ===== src/Sketch/Dump.antt =====
-- examples/TagDump/TagDump.ino: class NfcApps of the sketch that dumps the tags that it finds. Log lines
-- are left out, but not the calls for their arguments.
use arduino_nfc.Common.{ℕ, ◌==◌, ◌||◌, not, if◌then◌else◌, Bool, Option, none, some}
use arduino_nfc.Common.Outcome.{Outcome, done, ◌>>=◌}
use arduino_nfc.Nci.Types.{NfcNci}
use arduino_nfc.Tags.Types.{
  NfcTags, AppCall, Dump, cb_reset, cb_discover, cb_discover_ntf, cb_deactivate, cb_dump,
  tags_status_ok, tags_status_failed, tags_id_reset, tags_id_discover, tags_id_discover_activated,
  tags_id_deactivate, tags_id_dump, tags_type_2,
}
use arduino_nfc.Tags.Interface.{get_type, intf_get_nfcid_len, intf_get_nfcid_buf}
use arduino_nfc.Tags.Stack.{
  cmd_reset, cmd_discover, cmd_deactivate, get_interface, cmd_dump, is_tag,
}
use arduino_nfc.Sketch.{Sketch}

pub data DumpState : Type 0 where
  st_reset st_reset_response st_discover st_discover_response st_discovering : DumpState
  st_dump st_dump_response st_deactivate st_deactivate_response st_error st_end : DumpState

-- The end of `handleEvent`: the state, unless there is an error.
abbrev pub unless_error : ℕ → DumpState → DumpState
unless_error status s = if not (status == tags_status_ok) then st_error else s

-- A state that gives a command, with the command's result.
abbrev pub commands : DumpState → ℕ × NfcTags → Outcome (DumpState × NfcTags)
commands s r = done (unless_error r.0 s, r.1)

unfoldable pub dump_handle_event : DumpState → NfcTags → Outcome (DumpState × NfcTags)
dump_handle_event st_reset t = commands st_reset_response (cmd_reset t)
dump_handle_event st_discover t = commands st_discover_response (cmd_discover t)
dump_handle_event st_dump t = cmd_dump t >>= commands st_dump_response
dump_handle_event st_deactivate t = commands st_deactivate_response (cmd_deactivate t)
dump_handle_event st_error t = commands st_error (tags_status_failed, t)
dump_handle_event st_end t = commands st_end (tags_status_failed, t)
dump_handle_event s t = commands s (tags_status_ok, t)

-- `status != TAGS_STATUS_OK || id != expected`
abbrev pub is_bad : ℕ → ℕ → ℕ → Bool
is_bad status id expected = not (status == tags_status_ok) || not (id == expected)

unfoldable pub dump_cb_reset : ℕ → ℕ → DumpState
dump_cb_reset status id = if is_bad status id tags_id_reset then st_error else st_discover

unfoldable pub dump_cb_discover : ℕ → ℕ → DumpState
dump_cb_discover status id = if is_bad status id tags_id_discover then st_error else st_discovering

unfoldable pub dump_cb_discover_ntf : ℕ → ℕ → NfcTags → NfcNci → Outcome DumpState
dump_cb_discover_ntf status id t n =
    if is_bad status id tags_id_discover_activated
    then done st_error
    else if is_tag (get_interface t)
    then (do
      type ← get_type (get_interface t)
      len ← intf_get_nfcid_len t n
      buf ← intf_get_nfcid_buf t n
      done (if type == tags_type_2 then st_dump else st_deactivate))
    else done st_deactivate

unfoldable pub dump_cb_dump : ℕ → ℕ → Option Dump → DumpState
dump_cb_dump status id none = st_error
dump_cb_dump status id (some d) =
    if is_bad status id tags_id_dump
    then st_error
    else if not (d.more == 0)
    then st_dump_response
    else st_deactivate

unfoldable pub dump_cb_deactivate : ℕ → ℕ → DumpState
dump_cb_deactivate status id =
    if is_bad status id tags_id_deactivate then st_error else st_discovering

unfoldable pub dump_receive : AppCall → DumpState → NfcTags → NfcNci → Outcome DumpState
dump_receive c s t n = elim c.callback [
  | cb_reset ↦ done (dump_cb_reset c.status c.id)
  | cb_discover ↦ done (dump_cb_discover c.status c.id)
  | cb_discover_ntf ↦ dump_cb_discover_ntf c.status c.id t n
  | cb_deactivate ↦ done (dump_cb_deactivate c.status c.id)
  | cb_dump ↦ done (dump_cb_dump c.status c.id c.dump)
]

abbrev pub dump_sketch : Sketch
dump_sketch = record {
  State = DumpState;
  start = st_reset;
  handle_event = dump_handle_event;
  receive = dump_receive;
}
