-- ===== src/Tags/System.antt =====
-- The stack at work: src/tags/NfcTags.cpp as the client of src/nci/NfcNci.cpp, driven by the commands
-- of an application and by the two `handleEvent`, in any order.
pub mod Turns
pub mod Notices
pub mod Runs
pub mod Calls
use arduino_nfc.Common.{
  ℕ, ◌≡◌, refl, sym, subst, if_rule, if◌then◌else◌, not, ◌==◌, leb, Bool, Option, none, some, List,
  [], ◌∷◌, arith,
}
use arduino_nfc.Common.Outcome.{
  Outcome, done, fault, hang, ◌>>=◌, Returns, Returns-seq, Returns-map, Returns-self,
}
use arduino_nfc.Common.Buffer.Bounds.{AllBytes}
use arduino_nfc.Hw.{NfcHw}
use arduino_nfc.Nci.Types.{NfcNci, Notice, status_ok, status_rejected}
use arduino_nfc.Nci.Commands.{Reply, data_send}
use arduino_nfc.Nci.Events.{wait_for_event, handle_packet, report}
use arduino_nfc.Nci.Events as NciEvents
use arduino_nfc.Nci.Events.Frame.{handle_packet-SameBuffers}
use arduino_nfc.Nci.Events.Promises.{PromisesAll, handle_packet-Promises}
use arduino_nfc.Nci.Session.{
  OnlySends, issue, issue-OnlySends, reset_with, initialise, map_with, discover_with,
  deactivate_with, send_data,
}
use arduino_nfc.Nci.Reach.{OnlyReads, wait_for_event-OnlyReads, Sound, handle_packet-Sound}
use arduino_nfc.Tags.Types.{
  AppCall, AppCallback, NfcTags, TagsState, init_reset, init_init, init_done, discover_map,
  discover, discover_ntf, discover_activated, deactivate, deactivate_rsp, deactivate_ntf, dumping,
  dump_rsp, Type2, Type2State, t2_none, t2_dump, t2_dump_rsp, TagIntf, no_tag, to_tag2, to_mifare,
  tags_status_ok, cb_dump, tags_id_dump, cb_reset, cb_discover, cb_deactivate, tags_id_reset,
  tags_id_discover, tags_id_deactivate,
}
use arduino_nfc.Tags.Type2
use arduino_nfc.Tags.Interface.{mifare_handle_dump, intf_handle_dump, intf_cmd_dump}
use arduino_nfc.Tags.Stack.{
  Called, is_tag, cmd_reset, cmd_discover, cmd_deactivate, cmd_dump, discover_maps, discover_confs,
}
use arduino_nfc.Tags.Callbacks.{on_notice}
use arduino_nfc.Tags.Handlers.{
  is_dumping, Turn, notify, sends, handle_reset, handle_discover, handle_deactivate, handle_dump,
  handle_event,
}
use arduino_nfc.Tags.Coupling.{InStep, Coupled, on_notice-InStep}

-- A call of the application or of the loop.
pub data Move : Type 0 where
  reset_cmd discover_cmd deactivate_cmd dump_cmd tags_event nci_event : Move

-- The call of a callback, if the NCI layer makes one.
unfoldable pub deliver : Option Notice → NfcTags → NfcNci → Called
deliver none t n = done (none, t)
deliver (some c) t n = on_notice c t n

module _ (hw : NfcHw) where
  open hw use {World}

  -- `_nci.handleEvent()` with the tag API as its client.
  unfoldable pub nci_turn : NfcTags → NfcNci → World → Turn hw
  nci_turn t n w = do
    (c, n', w') ← NciEvents.handle_event hw n w
    (a, t') ← deliver c t n'
    done (a, t', n', w')

  unfoldable pub move : Move → NfcTags → NfcNci → World → Turn hw
  move reset_cmd t n w = done (none, (cmd_reset t).1, n, w)
  move discover_cmd t n w = done (none, (cmd_discover t).1, n, w)
  move deactivate_cmd t n w = done (none, (cmd_deactivate t).1, n, w)
  move dump_cmd t n w = cmd_dump t >>= λ r. done (none, r.1, n, w)
  move tags_event t n w = handle_event hw t n w
  move nci_event t n w = nci_turn t n w

  unfoldable pub moves : List Move → NfcTags → NfcNci → World → Turn hw
  moves [] t n w = done (none, t, n, w)
  moves (m ∷ ms) t n w = move m t n w >>= λ r. moves ms r.1 r.2 r.3
