-- ===== src/Sketch/Agreement.antt =====
-- examples/TagDetect/TagDetect.ino against examples/TagDump/TagDump.ino: where the two sketches agree.
use arduino_nfc.Common.{ℕ, ◌≡◌, ◌≢◌, refl, Option, arith}
use arduino_nfc.Common.Outcome.{done, ◌>>=◌}
use arduino_nfc.Nci.Types.{NfcNci}
use arduino_nfc.Tags.Types.{
  NfcTags, AppCall, AppCallback, Dump, cb_reset, cb_discover, cb_discover_ntf, cb_deactivate,
  cb_dump, TagIntf, no_tag, to_tag2, to_mifare, tags_status_ok, tags_id_discover_activated,
}
use arduino_nfc.Tags.Interface.{get_type}
use arduino_nfc.Sketch.Dump.{
  DumpState, is_bad, dump_handle_event, dump_receive, dump_cb_reset, dump_cb_discover,
  dump_cb_discover_ntf, dump_cb_deactivate,
}
use arduino_nfc.Sketch.Dump
use arduino_nfc.Sketch.Detect.{
  DetectState, st_reset, st_reset_response, st_discover, st_discover_response, st_discovering,
  st_deactivate, st_deactivate_response, st_error, st_end, detect_handle_event, detect_receive,
  detect_cb_reset, detect_cb_discover, detect_cb_discover_ntf, detect_cb_deactivate,
}

-- The states of the one sketch among those of the other.
unfoldable pub embed : DetectState → DumpState
embed st_reset = Dump.st_reset
embed st_reset_response = Dump.st_reset_response
embed st_discover = Dump.st_discover
embed st_discover_response = Dump.st_discover_response
embed st_discovering = Dump.st_discovering
embed st_deactivate = Dump.st_deactivate
embed st_deactivate_response = Dump.st_deactivate_response
embed st_error = Dump.st_error
embed st_end = Dump.st_end

-- No dump is handed on, and a notice of a tag is that of a tag of another type than 2.
pub record NoDump (c : AppCall) (t : NfcTags) : Type 0 where
  pub not_dump : c.callback ≢ cb_dump
  pub status : c.callback ≡ cb_discover_ntf → c.status ≡ tags_status_ok
  pub id : c.callback ≡ cb_discover_ntf → c.id ≡ tags_id_discover_activated
  pub intf : c.callback ≡ cb_discover_ntf → t.intf ≢ to_tag2

handle_event_agrees :
    (s : DetectState) (t : NfcTags)
    → dump_handle_event (embed s) t ≡ (detect_handle_event s t >>= λ r. done (embed r.0, r.1))
unfolding dump_handle_event detect_handle_event embed
handle_event_agrees st_reset t = ground arith
handle_event_agrees st_discover t = ground arith
handle_event_agrees st_deactivate t = ground arith
handle_event_agrees st_reset_response t = refl
handle_event_agrees st_discover_response t = refl
handle_event_agrees st_discovering t = refl
handle_event_agrees st_deactivate_response t = refl
handle_event_agrees st_error t = refl
handle_event_agrees st_end t = refl

discover_ntf_agrees :
    (i : TagIntf) (status id : ℕ) (t : NfcTags) (n : NfcNci)
    → t.intf ≡ i
    → i ≢ to_tag2
    → status ≡ tags_status_ok
    → id ≡ tags_id_discover_activated
    → dump_cb_discover_ntf status id t n
      ≡ (detect_cb_discover_ntf status id t n >>= λ a. done (embed a))
unfolding dump_cb_discover_ntf detect_cb_discover_ntf embed get_type
discover_ntf_agrees no_tag status id t n e h a b = ground arith
discover_ntf_agrees to_tag2 status id t n e h a b = absurd (h refl)
discover_ntf_agrees to_mifare status id t n e h a b = ground arith

receive_agrees :
    (cb : AppCallback) (status id : ℕ) (d : Option Dump) (s : DetectState) (t : NfcTags)
    (n : NfcNci)
    → NoDump (record { callback = cb; status = status; id = id; dump = d }) t
    → dump_receive (record { callback = cb; status = status; id = id; dump = d }) (embed s) t n ≡ (
        detect_receive (record { callback = cb; status = status; id = id; dump = d }) s t n >>= λ a.
        done (embed a))
unfolding dump_receive detect_receive dump_cb_reset detect_cb_reset dump_cb_discover
    detect_cb_discover dump_cb_deactivate detect_cb_deactivate embed
receive_agrees cb_reset status id d s t n k = ground arith
receive_agrees cb_discover status id d s t n k = ground arith
receive_agrees cb_discover_ntf status id d s t n k =
    discover_ntf_agrees t.intf status id t n refl (k.intf refl) (k.status refl) (k.id refl)
receive_agrees cb_deactivate status id d s t n k = ground arith
receive_agrees cb_dump status id d s t n k = absurd (k.not_dump refl)

-- The two sketches agree in every state that both have: in their handlers, and in their callbacks if none
-- hands on a dump and a notice of a tag has the status OK, its identifier and no tag of type 2.
pub sketches_agree :
    (s : DetectState) (t : NfcTags) (n : NfcNci) (c : AppCall)
    → NoDump c t
    → (dump_handle_event (embed s) t ≡ (detect_handle_event s t >>= λ r. done (embed r.0, r.1)))
      × (dump_receive c (embed s) t n ≡ (detect_receive c s t n >>= λ a. done (embed a)))
sketches_agree s t n c k =
    (handle_event_agrees s t, receive_agrees c.callback c.status c.id c.dump s t n k)
