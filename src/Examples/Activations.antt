-- ===== src/Examples/Activations.antt =====
-- src/nci and src/tags: a tag that is announced, and a response that is waited for.
use arduino_nfc.Common.{ℕ, ◌≡◌, List, [], ◌∷◌, refl, Option, some, IsBytes, arith}
use arduino_nfc.Common.Outcome.{done}
use arduino_nfc.Nci.Types.{
  NfcNci, RfIntf, Notice, rfst_reset, rfst_discovery, rfst_poll_active, at_rf_intf, status_ok,
  cb_core_init,
}
use arduino_nfc.Nci.Responses.{ntf_rf_intf_activated}
use arduino_nfc.Nci.Events.{handle_packet}
use arduino_nfc.Nci.Events.Notification.{Announced, Describes, StandAt, StandAt-slice, encode}
use arduino_nfc.Nci.Events.Activation.{ntf_rf_intf_activated-Describes}
use arduino_nfc.Nci.Events.Receiving.{Packet, Gives, received, received-Stands}
use arduino_nfc.Nci.Events.Replies.{Success, init_ok}
use arduino_nfc.Tags.Types.{NfcTags, AppCall, discover_ntf, init_init, no_tag, t2_none}
use arduino_nfc.Tags.Callbacks.{on_notice}
use arduino_nfc.Tags.Found.{Found, announced_tag-Found}
use arduino_nfc.Tags.Progress.{Turns, nci_turn-Turns}
use arduino_nfc.Examples.{scripted, nci_in, tags_in, type2_in, buf_of}

-- A Mifare Ultralight.
abbrev pub ultralight : Announced
ultralight = record {
  id = 1;
  interface = 1;
  protocol = 2;
  max_payload_size = 255;
  credits = 1;
  sens_res0 = 0x44;
  sens_res1 = 0;
  nfcid = 4 ∷ 0x11 ∷ 0x22 ∷ 0x33 ∷ 0x44 ∷ 0x55 ∷ 0x66 ∷ [];
  sel_res = some 0;
  exchange_mode = 0;
  tx_bitrate = 0;
  rx_bitrate = 0;
}

abbrev found_nci : NfcNci
found_nci = nci_in rfst_discovery (
    97 ∷ 5 ∷ 23 ∷ 1 ∷ 1 ∷ 2 ∷ 0 ∷ 255 ∷ 1 ∷ 12 ∷ 0x44 ∷ 0 ∷ 7 ∷ 4 ∷ 0x11 ∷ 0x22 ∷ 0x33 ∷ 0x44 ∷ 0x55
    ∷ 0x66 ∷ 1 ∷ 0 ∷ 0 ∷ 0 ∷ 0 ∷ 0 ∷ [])

abbrev searching : NfcTags
searching = tags_in discover_ntf 2 no_tag (type2_in t2_none 0)

pub ultralight-IsBytes : IsBytes ultralight.nfcid
ultralight-IsBytes = (
  omega arith,
  (omega arith, (omega arith, (omega arith, (omega arith, (omega arith, (omega arith, tt)))))),
)

ultralight_stands : StandAt found_nci.rx_buf 3 (encode ultralight)
unfolding encode
ultralight_stands = StandAt-slice found_nci.rx_buf 3 (encode ultralight) refl

ntf_rf_intf_activated-Describes_example :
    (rf : RfIntf) × Describes ultralight rf
    × (ntf_rf_intf_activated 2 found_nci
        ≡ done (
          status_ok,
          record found_nci { rf_intf = rf; data_ptr = at_rf_intf; state = rfst_poll_active },
        ))
unfolding encode
ntf_rf_intf_activated-Describes_example =
    ntf_rf_intf_activated-Describes ultralight found_nci refl (omega arith) ultralight-IsBytes refl
      ultralight_stands

announced_tag-Found_example :
    (c : Notice) × (n' : NfcNci) × (t' : NfcTags) × (o : Option AppCall) × (handle_packet found_nci
      ≡ done (some c, n'))
    × (on_notice c searching n' ≡ done (o, t'))
    × Found ultralight found_nci n' searching t' o
unfolding encode
announced_tag-Found_example =
    announced_tag-Found ultralight found_nci searching refl
      (record {
        hdr0 = refl;
        hdr1 = refl;
        len = refl;
        payload = ultralight_stands;
        fits = omega arith;
        bytes = ultralight-IsBytes;
      })
      refl

-- The response to CORE_INIT.
abbrev init_rsp : Packet
init_rsp = record {
  byte0 = 0x40;
  byte1 = 1;
  first = 0;
  rest = 0 ∷ 0 ∷ 0 ∷ 0 ∷ 0 ∷ 0 ∷ 0 ∷ 0 ∷ 0 ∷ 0 ∷ 0 ∷ 0 ∷ 0 ∷ 0 ∷ 0 ∷ 0 ∷ [];
}

abbrev init_script : List ℕ
init_script = 0x40 ∷ 1 ∷ 17 ∷ 0 ∷ 0 ∷ 0 ∷ 0 ∷ 0 ∷ 0 ∷ 0 ∷ 0 ∷ 0 ∷ 0 ∷ 0 ∷ 0 ∷ 0 ∷ 0 ∷ 0 ∷ 0 ∷ 0 ∷ []

abbrev initialising : NfcTags
initialising = tags_in init_init 1 no_tag (type2_in t2_none 0)

init_given : Gives scripted init_rsp init_script []
init_given = record {
  valid = record {
    byte0 = omega arith;
    byte1 = omega arith;
    first = omega arith;
    size = omega arith;
  };
  mid = 0 ∷ 0 ∷ 0 ∷ 0 ∷ 0 ∷ 0 ∷ 0 ∷ 0 ∷ 0 ∷ 0 ∷ 0 ∷ 0 ∷ 0 ∷ 0 ∷ 0 ∷ 0 ∷ 0 ∷ [];
  header_read = refl;
  payload_read = refl;
}

init_succeeds :
    Success (record (nci_in rfst_reset []) { rx_buf = received init_rsp (buf_of []) }) cb_core_init
init_succeeds =
    let b = received-Stands init_rsp (buf_of []) init_given.valid in
    init_ok refl b.byte0 b.byte1 (omega (arith, b.size)) b.first

nci_turn-Turns_example :
    Turns scripted cb_core_init initialising (nci_in rfst_reset []) init_script []
nci_turn-Turns_example =
    nci_turn-Turns scripted cb_core_init init_rsp initialising (nci_in rfst_reset []) init_script []
      refl refl init_given init_succeeds
