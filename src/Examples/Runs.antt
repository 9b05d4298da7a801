-- ===== src/Examples/Runs.antt =====
-- Calls in sequence, over the scripted controller.
use arduino_nfc.Common.{ℕ, ◌≡◌, List, [], ◌∷◌, refl, Option, some, none, arith}
use arduino_nfc.Common.Outcome.{Outcome, done, fault, hang}
use arduino_nfc.Common.Buffer.{store_all}
use arduino_nfc.Nci.Types.{NfcNci, state_none, rfst_idle, status_rejected}
use arduino_nfc.Nci.Header.{hdr0, hdr1, mt_of, pbf_of, gid_of, oid_of, uint16_id}
use arduino_nfc.Nci.Responses.{rsp_core_reset, rsp_core_init}
use arduino_nfc.Nci.Commands.{cmd_core_reset, cmd_core_init, put, put_all, send}
use arduino_nfc.Nci.Events.{
  wait_for_event, handle_packet, handle_core_event, answer, report, read_into,
}
use arduino_nfc.Nci.Events as NciEvents
use arduino_nfc.Nci.Session.{Command, run, perform, issue, reset_with, initialise}
use arduino_nfc.Nci.Reach.{Trail, run_path, reset_rejected}
use arduino_nfc.Tags.Types.{
  init_done, NfcTags, AppCall, tags_none, no_tag, t2_none, translate_nci_status,
}
use arduino_nfc.Tags.Stack.{cmd_reset, set_nci_response}
use arduino_nfc.Tags.Callbacks.{on_notice, on_core_reset, on_core_init}
use arduino_nfc.Tags.Handlers.{handle_event, handle_reset, sends, notify}
use arduino_nfc.Tags.Coupling.{InStep}
use arduino_nfc.Tags.System.{Move, reset_cmd, tags_event, nci_event, move, moves, nci_turn, deliver}
use arduino_nfc.Tags.System.Runs.{moves-InStep}
use arduino_nfc.Examples.{scripted, nci_in, tags_in, type2_in}
use arduino_nfc.Examples.Controller.{buf_of-AllBytes}

-- The responses to CORE_RESET and to CORE_INIT.
abbrev script : List ℕ
script =
    0x40 ∷ 0 ∷ 3 ∷ 0 ∷ 0x10 ∷ 1 ∷ 0x40 ∷ 1 ∷ 17 ∷ 0 ∷ 0 ∷ 0 ∷ 0 ∷ 0 ∷ 0 ∷ 0 ∷ 0 ∷ 0 ∷ 0 ∷ 0 ∷ 0 ∷ 0
    ∷ 0 ∷ 0 ∷ 0 ∷ 0 ∷ []

abbrev result {ℓ} : {A : Type ℓ} → A → Outcome A → A
result a (done b) = b
result a fault = a
result a hang = a

abbrev new_nci : NfcNci
new_nci = nci_in state_none []

-- The client resets and initialises the controller.
abbrev bring_up : List (Option Command)
bring_up = some (reset_with 0) ∷ none ∷ some initialise ∷ none ∷ []

abbrev brought_up : NfcNci × List ℕ
brought_up = result (new_nci, []) (run scripted bring_up new_nci script)

brought_up_lem : run scripted bring_up new_nci script ≡ done (brought_up.0, brought_up.1)
unfolding run perform issue cmd_core_reset cmd_core_init put_all put send hdr0 hdr1
    NciEvents.handle_event wait_for_event read_into store_all handle_packet handle_core_event answer
    rsp_core_reset rsp_core_init mt_of pbf_of gid_of oid_of uint16_id
brought_up_lem = refl

run_path_example : Trail state_none brought_up.0.state
run_path_example =
    run_path scripted bring_up new_nci brought_up.0 script brought_up.1 (buf_of-AllBytes [] tt)
      brought_up_lem

-- A second bring-up, of an object that is initialised.
abbrev idle_nci : NfcNci
idle_nci = nci_in rfst_idle []

abbrev again : NfcNci × List ℕ
again = result (idle_nci, []) (run scripted bring_up idle_nci script)

again_lem : run scripted bring_up idle_nci script ≡ done (again.0, again.1)
unfolding run perform issue cmd_core_reset cmd_core_init put_all put send hdr0 hdr1
    NciEvents.handle_event wait_for_event read_into store_all handle_packet handle_core_event answer
    rsp_core_reset rsp_core_init mt_of pbf_of gid_of oid_of uint16_id
again_lem = refl

reset_rejected_example :
    cmd_core_reset scripted 1 again.0 again.1 ≡ done (status_rejected, again.0, again.1)
reset_rejected_example =
    reset_rejected scripted bring_up 1 idle_nci again.0 script again.1 (buf_of-AllBytes [] tt)
      (ground arith) again_lem

-- The application resets the stack: the events up to its callback.
abbrev reset_moves : List Move
reset_moves = reset_cmd ∷ tags_event ∷ nci_event ∷ tags_event ∷ nci_event ∷ []

abbrev new_tags : NfcTags
new_tags = tags_in tags_none 0 no_tag (type2_in t2_none 0)

abbrev was_reset : Option AppCall × NfcTags × NfcNci × List ℕ
was_reset =
    result (none, new_tags, new_nci, []) (moves scripted reset_moves new_tags new_nci script)

was_reset_lem :
    moves scripted reset_moves new_tags new_nci script
    ≡ done (was_reset.0, was_reset.1, was_reset.2, was_reset.3)
unfolding moves move nci_turn deliver cmd_reset handle_event handle_reset sends notify on_notice
    on_core_reset on_core_init set_nci_response translate_nci_status cmd_core_reset cmd_core_init
    put_all put send hdr0 hdr1 NciEvents.handle_event wait_for_event read_into store_all
    handle_packet handle_core_event answer rsp_core_reset rsp_core_init mt_of pbf_of gid_of oid_of
    uint16_id
was_reset_lem = refl

moves-InStep_example : InStep was_reset.1 was_reset.2
moves-InStep_example =
    moves-InStep scripted reset_moves new_tags was_reset.1 new_nci was_reset.2 script was_reset.3
      was_reset.0 refl (buf_of-AllBytes [] tt) was_reset_lem

-- Those five calls bring both layers up, and the application is told.
was_reset_up : (was_reset.1.state ≡ init_done) × (was_reset.2.state ≡ rfst_idle)
unfolding moves move nci_turn deliver cmd_reset handle_event handle_reset sends notify on_notice
    on_core_reset on_core_init set_nci_response translate_nci_status cmd_core_reset cmd_core_init
    put_all put send hdr0 hdr1 NciEvents.handle_event wait_for_event read_into store_all
    handle_packet handle_core_event answer rsp_core_reset rsp_core_init mt_of pbf_of gid_of oid_of
    uint16_id
was_reset_up = (refl, refl)
