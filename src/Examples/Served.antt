-- ===== src/Examples/Served.antt =====
-- src/nci, src/tags and examples: calls that return, at concrete inputs.
use arduino_nfc.Common.{ℕ, ◌≡◌, [], refl, some, none, arith}
use arduino_nfc.Common.Outcome.{done, Completes, ◌>>=◌}
use arduino_nfc.Nci.Types.{rfst_idle, rfst_poll_active}
use arduino_nfc.Nci.Session.{discover_with, issue}
use arduino_nfc.Nci.Total.{issue-Completes}
use arduino_nfc.Tags.Types.{
  NfcTags, AppCall, dumping, discover_activated, to_tag2, to_mifare, t2_dump_rsp, t2_none,
  cb_discover_ntf,
}
use arduino_nfc.Tags.Stack.{discover_confs}
use arduino_nfc.Tags.Handlers.{handle_event}
use arduino_nfc.Tags.Served.{handle_event-Completes}
use arduino_nfc.Sketch.Dump.{dump_handle_event, dump_receive}
use arduino_nfc.Sketch.Detect.{detect_handle_event, detect_receive, st_discovering}
use arduino_nfc.Sketch.Agreement.{embed, sketches_agree}
use arduino_nfc.Examples.{scripted, nci_in, tags_in, type2_in}

-- A dump that waits for blocks.
abbrev reading : NfcTags
reading = tags_in dumping 5 to_tag2 (type2_in t2_dump_rsp 0)

handle_event-Completes_example :
    Completes (handle_event scripted reading (nci_in rfst_poll_active []) [])
handle_event-Completes_example =
    handle_event-Completes scripted reading (nci_in rfst_poll_active []) [] (record {
      registered = refl;
      tag_registered = refl;
      settled = ground arith;
      busy = λ e. ground arith;
    })

issue-Completes_example :
    Completes (issue scripted (discover_with 2 (some discover_confs)) (nci_in rfst_idle []) [])
issue-Completes_example =
    issue-Completes scripted (discover_with 2 (some discover_confs)) (nci_in rfst_idle []) []
      (refl, (omega arith, (omega arith, (omega arith, (omega arith, tt)))), omega arith)

-- A tag for the interface of Mifare classic, and the notice of it.
abbrev classic : NfcTags
classic = tags_in discover_activated 2 to_mifare (type2_in t2_none 0)

abbrev notice_of : ℕ → AppCall
notice_of status = record { callback = cb_discover_ntf; status = status; id = 3; dump = none }

sketches_agree_example :
    (dump_handle_event (embed st_discovering) classic
      ≡ (detect_handle_event st_discovering classic >>= λ r. done (embed r.0, r.1)))
    × (dump_receive (notice_of 0) (embed st_discovering) classic (nci_in rfst_poll_active []) ≡ (
        detect_receive (notice_of 0) st_discovering classic (nci_in rfst_poll_active []) >>= λ a.
        done (embed a)))
sketches_agree_example =
    sketches_agree st_discovering classic (nci_in rfst_poll_active []) (notice_of 0) (record {
      not_dump = ground arith;
      status = λ e. refl;
      id = λ e. refl;
      intf = λ e. ground arith;
    })
