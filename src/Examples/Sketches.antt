-- ===== src/Examples/Sketches.antt =====
-- examples: the theorems on the sketches, over the scripted controller.
use arduino_nfc.Common.{ℕ, ◌≡◌, ◌≢◌, List, [], ◌∷◌, refl, arith}
use arduino_nfc.Common.Outcome.{Outcome, done, Completes, ◌>>=◌}
use arduino_nfc.Nci.Types.{NfcNci, state_none}
use arduino_nfc.Nci.Events.Receiving.{Packet}
use arduino_nfc.Tags.Types.{NfcTags, tags_none, no_tag, t2_none, dumping, tags_status_ok}
use arduino_nfc.Common.Buffer.{store_all}
use arduino_nfc.Nci.Header.{hdr0, hdr1, mt_of, pbf_of, gid_of, oid_of, uint16_id}
use arduino_nfc.Nci.Responses.{rsp_core_reset, rsp_core_init}
use arduino_nfc.Nci.Commands.{cmd_core_reset, cmd_core_init, put, put_all, send}
use arduino_nfc.Nci.Events.{wait_for_event, handle_packet, handle_core_event, answer, read_into}
use arduino_nfc.Nci.Events as NciEvents
use arduino_nfc.Nci.Session
use arduino_nfc.Tags.Stack
use arduino_nfc.Tags.Stack.{cmd_reset, cmd_discover, set_nci_response}
use arduino_nfc.Tags.Callbacks.{on_notice, on_core_reset, on_core_init}
use arduino_nfc.Tags.Handlers
use arduino_nfc.Tags.Handlers.{handle_reset, sends, notify}
use arduino_nfc.Tags.System.{nci_turn, deliver}
use arduino_nfc.Sketch.{setup, passes, pass, layers, turn, tell}
use arduino_nfc.Sketch.Dump.{
  dump_sketch, DumpState, dump_handle_event, dump_receive, dump_cb_reset, st_reset,
}
use arduino_nfc.Sketch.Detect
use arduino_nfc.Sketch.Detect.{
  detect_sketch, DetectState, detect_handle_event, detect_receive, detect_cb_reset,
}
use arduino_nfc.Sketch.Detecting.{detect_served}
use arduino_nfc.Sketch.Accepted.{New, Accepts, passes-Accepts, passes_served}
use arduino_nfc.Sketch.BringUp.{Fresh, Cooperates}
use arduino_nfc.Examples.{scripted, nci_in, tags_in, type2_in}
use arduino_nfc.Examples.Controller.{sent, scripted-Gives, buf_of-AllBytes}

abbrev pub new_tags : NfcTags
new_tags = tags_in tags_none 0 no_tag (type2_in t2_none 0)

abbrev pub new_nci : NfcNci
new_nci = nci_in state_none []

-- The four responses, and a script that begins with them.
abbrev reset_rsp : Packet
reset_rsp = record { byte0 = 0x40; byte1 = 0; first = 0; rest = 0x10 ∷ 1 ∷ [] }

abbrev init_rsp : Packet
init_rsp = record {
  byte0 = 0x40;
  byte1 = 1;
  first = 0;
  rest = 0 ∷ 0 ∷ 0 ∷ 0 ∷ 0 ∷ 0 ∷ 0 ∷ 0 ∷ 0 ∷ 0 ∷ 0 ∷ 0 ∷ 0 ∷ 0 ∷ 0 ∷ 0 ∷ [];
}

abbrev map_rsp : Packet
map_rsp = record { byte0 = 0x41; byte1 = 0; first = 0; rest = [] }

abbrev discover_rsp : Packet
discover_rsp = record { byte0 = 0x41; byte1 = 3; first = 0; rest = [] }

abbrev pub responses : List ℕ → List ℕ
responses rest = sent reset_rsp (sent init_rsp (sent map_rsp (sent discover_rsp rest)))

pub scripted-Cooperates : (rest : List ℕ) → Cooperates scripted (responses rest) rest
scripted-Cooperates rest = record {
  w1 = sent init_rsp (sent map_rsp (sent discover_rsp rest));
  w2 = sent map_rsp (sent discover_rsp rest);
  w3 = sent discover_rsp rest;
  reset = (
    reset_rsp,
    (refl, refl, refl, refl),
    record { takes = refl; gives = scripted-Gives reset_rsp _ refl },
  );
  init = (
    init_rsp,
    (refl, refl, omega arith, refl),
    record { takes = refl; gives = scripted-Gives init_rsp _ refl },
  );
  map = (
    map_rsp,
    (refl, refl, refl, refl),
    record { takes = refl; gives = scripted-Gives map_rsp _ refl },
  );
  discover = (
    discover_rsp,
    (refl, refl, refl, refl),
    record { takes = refl; gives = scripted-Gives discover_rsp _ refl },
  );
}

pub new_objects-Fresh : Fresh new_tags new_nci
new_objects-Fresh = record { tags = refl; tag_idle = refl; nci = refl }

-- The objects and the script after two passes.
abbrev two_passes : Outcome (DumpState × NfcTags × NfcNci × List ℕ)
two_passes =
    passes dump_sketch scripted 2 st_reset (setup new_tags new_nci).0 (setup new_tags new_nci).1
      (responses [])

abbrev result {ℓ} : {A : Type ℓ} → A → Outcome A → A
result a (done b) = b
result a _ = a

abbrev start : DumpState × NfcTags × NfcNci × List ℕ
start = (st_reset, new_tags, new_nci, (responses []))

abbrev after_two : DumpState × NfcTags × NfcNci × List ℕ
after_two = result start two_passes

new_tags-New : New new_tags new_nci
new_tags-New = record { tags = refl; nci = refl; bytes = buf_of-AllBytes [] tt }

two_passes_return : two_passes ≡ done (after_two.0, after_two.1, after_two.2, after_two.3)
unfolding passes pass layers turn tell setup dump_handle_event dump_receive dump_cb_reset
    Handlers.handle_event handle_reset sends notify cmd_reset Stack.init Session.init cmd_core_reset
    cmd_core_init put_all put send hdr0 hdr1 nci_turn deliver NciEvents.handle_event wait_for_event
    read_into store_all handle_packet handle_core_event answer rsp_core_reset rsp_core_init mt_of
    pbf_of gid_of oid_of uint16_id on_notice on_core_reset on_core_init set_nci_response
two_passes_return = refl

passes-Accepts_example : Accepts after_two.0 after_two.1
passes-Accepts_example =
    passes-Accepts scripted 2 new_tags after_two.1 new_nci after_two.2 (responses []) after_two.3
      after_two.0 new_tags-New two_passes_return

passes_served_example : Completes (
    dump_handle_event after_two.0 after_two.1 >>= λ r.
    Handlers.handle_event scripted r.1 after_two.2 after_two.3)
passes_served_example =
    passes_served scripted 2 new_tags after_two.1 new_nci after_two.2 (responses []) after_two.3
      after_two.0 new_tags-New two_passes_return

-- The other sketch after two passes.
abbrev two_detect_passes : Outcome (DetectState × NfcTags × NfcNci × List ℕ)
two_detect_passes =
    passes detect_sketch scripted 2 Detect.st_reset (setup new_tags new_nci).0
      (setup new_tags new_nci).1 (responses [])

abbrev detect_start : DetectState × NfcTags × NfcNci × List ℕ
detect_start = (Detect.st_reset, new_tags, new_nci, responses [])

abbrev detected_two : DetectState × NfcTags × NfcNci × List ℕ
detected_two = result detect_start two_detect_passes

two_detect_passes_return :
    two_detect_passes ≡ done (detected_two.0, detected_two.1, detected_two.2, detected_two.3)
unfolding passes pass layers turn tell setup detect_handle_event detect_receive detect_cb_reset
    Handlers.handle_event handle_reset sends notify cmd_reset Stack.init Session.init cmd_core_reset
    cmd_core_init put_all put send hdr0 hdr1 nci_turn deliver NciEvents.handle_event wait_for_event
    read_into store_all handle_packet handle_core_event answer rsp_core_reset rsp_core_init mt_of
    pbf_of gid_of oid_of uint16_id on_notice on_core_reset on_core_init set_nci_response
two_detect_passes_return = refl

detect_served_example :
    (detected_two.1.state ≢ dumping)
    × (detected_two.0 ≡ Detect.st_discover → (cmd_discover detected_two.1).0 ≡ tags_status_ok)
    × Completes (
        detect_handle_event detected_two.0 detected_two.1 >>= λ r.
        Handlers.handle_event scripted r.1 detected_two.2 detected_two.3)
detect_served_example =
    detect_served scripted 2 new_tags detected_two.1 new_nci detected_two.2 (responses [])
      detected_two.3 detected_two.0 new_tags-New two_detect_passes_return
