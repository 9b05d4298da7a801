-- ===== src/Sketch/Application.antt =====
-- examples: what both sketches do while no tag is found, as an interface that each of them fills.
use arduino_nfc.Common.{◌≡◌, ◌⊎◌, inl, inr, refl, arith}
use arduino_nfc.Common.Outcome.{done}
use arduino_nfc.Nci.Types.{NfcNci}
use arduino_nfc.Tags.Types.{
  NfcTags, init_done, discover_map, discover_activated, dumping, deactivate, no_tag, cb_reset,
  cb_discover, cb_deactivate, tags_id_reset, tags_id_discover, tags_id_deactivate,
}
use arduino_nfc.Tags.Stack.{cmd_reset, cmd_discover, cmd_deactivate}
use arduino_nfc.Tags.Progress.{call_of}
use arduino_nfc.Sketch.{Sketch}
use arduino_nfc.Sketch.Dump.{
  dump_sketch, dump_handle_event, dump_receive, dump_cb_reset, dump_cb_discover, dump_cb_deactivate,
}
use arduino_nfc.Sketch.Dump
use arduino_nfc.Sketch.Detect.{
  detect_sketch, detect_handle_event, detect_receive, detect_cb_reset, detect_cb_discover,
  detect_cb_deactivate,
}
use arduino_nfc.Sketch.Detect

-- The tag API with the deactivation commanded.
abbrev pub deactivating : NfcTags → NfcTags
deactivating t = record t { state = deactivate; id = tags_id_deactivate; intf = no_tag }

-- The states in which a sketch commands or waits, and what its handler and its callbacks do in them.
pub record Application (sk : Sketch) : Type 0 where
  pub reset : sk.State
  pub reset_response : sk.State
  pub discover : sk.State
  pub discover_response : sk.State
  pub discovering : sk.State
  pub deactivate : sk.State
  pub deactivate_response : sk.State
  pub resets : (t : NfcTags) → sk.handle_event reset t ≡ done (reset_response, (cmd_reset t).1)
  pub awaits_reset : (t : NfcTags) → sk.handle_event reset_response t ≡ done (reset_response, t)
  pub discovers :
      (t : NfcTags)
      → t.state ≡ init_done
      → sk.handle_event discover t
        ≡ done (discover_response, record t { state = discover_map; id = tags_id_discover })
  pub awaits_discover :
      (t : NfcTags) → sk.handle_event discover_response t ≡ done (discover_response, t)
  pub awaits_tag : (t : NfcTags) → sk.handle_event discovering t ≡ done (discovering, t)
  pub deactivates :
      (t : NfcTags)
      → (t.state ≡ discover_activated) ⊎ (t.state ≡ dumping)
      → sk.handle_event deactivate t ≡ done (deactivate_response, deactivating t)
  pub awaits_deactivate :
      (t : NfcTags) → sk.handle_event deactivate_response t ≡ done (deactivate_response, t)
  pub told_reset :
      (t : NfcTags) (n : NfcNci)
      → sk.receive (call_of cb_reset tags_id_reset) reset_response t n ≡ done discover
  pub told_discover :
      (t : NfcTags) (n : NfcNci)
      → sk.receive (call_of cb_discover tags_id_discover) discover_response t n ≡ done discovering
  pub told_deactivate :
      (t : NfcTags) (n : NfcNci)
      → sk.receive (call_of cb_deactivate tags_id_deactivate) deactivate_response t n
        ≡ done discovering

pub dump_discovers :
    (t : NfcTags)
    → t.state ≡ init_done
    → dump_handle_event Dump.st_discover t
      ≡ done (Dump.st_discover_response, record t { state = discover_map; id = tags_id_discover })
unfolding dump_handle_event cmd_discover
dump_discovers t h = ground (arith, h)

pub dump_deactivates :
    (t : NfcTags)
    → (t.state ≡ discover_activated) ⊎ (t.state ≡ dumping)
    → dump_handle_event Dump.st_deactivate t ≡ done (Dump.st_deactivate_response, deactivating t)
unfolding dump_handle_event cmd_deactivate
dump_deactivates t (inl h) = ground (arith, h)
dump_deactivates t (inr h) = ground (arith, h)

unfoldable pub dump_application : Application dump_sketch
unfolding dump_handle_event dump_receive dump_cb_reset dump_cb_discover dump_cb_deactivate cmd_reset
dump_application = record {
  reset = Dump.st_reset;
  reset_response = Dump.st_reset_response;
  discover = Dump.st_discover;
  discover_response = Dump.st_discover_response;
  discovering = Dump.st_discovering;
  deactivate = Dump.st_deactivate;
  deactivate_response = Dump.st_deactivate_response;
  resets = λ t. refl;
  awaits_reset = λ t. refl;
  discovers = dump_discovers;
  awaits_discover = λ t. refl;
  awaits_tag = λ t. refl;
  deactivates = dump_deactivates;
  awaits_deactivate = λ t. refl;
  told_reset = λ t n. refl;
  told_discover = λ t n. refl;
  told_deactivate = λ t n. refl;
}

pub detect_discovers :
    (t : NfcTags)
    → t.state ≡ init_done
    → detect_handle_event Detect.st_discover t
      ≡ done (Detect.st_discover_response, record t { state = discover_map; id = tags_id_discover })
unfolding detect_handle_event cmd_discover
detect_discovers t h = ground (arith, h)

pub detect_deactivates :
    (t : NfcTags)
    → (t.state ≡ discover_activated) ⊎ (t.state ≡ dumping)
    → detect_handle_event Detect.st_deactivate t
      ≡ done (Detect.st_deactivate_response, deactivating t)
unfolding detect_handle_event cmd_deactivate
detect_deactivates t (inl h) = ground (arith, h)
detect_deactivates t (inr h) = ground (arith, h)

unfoldable pub detect_application : Application detect_sketch
unfolding detect_handle_event detect_receive detect_cb_reset detect_cb_discover detect_cb_deactivate
    cmd_reset
detect_application = record {
  reset = Detect.st_reset;
  reset_response = Detect.st_reset_response;
  discover = Detect.st_discover;
  discover_response = Detect.st_discover_response;
  discovering = Detect.st_discovering;
  deactivate = Detect.st_deactivate;
  deactivate_response = Detect.st_deactivate_response;
  resets = λ t. refl;
  awaits_reset = λ t. refl;
  discovers = detect_discovers;
  awaits_discover = λ t. refl;
  awaits_tag = λ t. refl;
  deactivates = detect_deactivates;
  awaits_deactivate = λ t. refl;
  told_reset = λ t n. refl;
  told_discover = λ t n. refl;
  told_deactivate = λ t n. refl;
}
