-- ===== src/Examples/Events.antt =====
-- src/nci/NfcNci.cpp: the handlers of received packets, at concrete packets.
use arduino_nfc.Common.{
  ℕ, ◌+◌, ◌≡◌, ◌==◌, if◌then◌else◌, List, [], ◌∷◌, refl, Option, some, inr, arith,
}
use arduino_nfc.Common.Outcome.{done, fault, Completes}
use arduino_nfc.Common.Buffer.{Buf}
use arduino_nfc.Common.Buffer.Bounds.{AllBytes}
use arduino_nfc.Nci.Types.{
  NfcNci, Notice, Callback, DataPtr, state_none, rfst_reset, rfst_idle, rfst_discovery,
}
use arduino_nfc.Nci.Responses
use arduino_nfc.Nci.Events.{wait_for_event, handle_packet, handle_core_event, answer}
use arduino_nfc.Nci.Events.Automaton.{advance, event_of, handle_packet-advance}
use arduino_nfc.Nci.Events.Promises.{PromisesAll, handle_packet-Promises}
use arduino_nfc.Nci.Events.Safety.{handle_packet-Completes, handle_packet-fault}
use arduino_nfc.Nci.Events.Frame.{SameBuffers, handle_packet-SameBuffers}
use arduino_nfc.Nci.Events.Waiting.{wait_for_event_total}
use arduino_nfc.Nci.Header.{mt_of, pbf_of, gid_of, oid_of, uint16_id}
use arduino_nfc.Examples.{scripted, nci_in, buf_of}
use arduino_nfc.Examples.Controller.{scripted-IsResponsive, buf_of-AllBytes}

-- A type 2 tag in mode A, with an identifier of seven bytes.
abbrev tag_found : List ℕ
tag_found =
    0x61 ∷ 5 ∷ 23 ∷ 1 ∷ 1 ∷ 2 ∷ 0 ∷ 255 ∷ 0 ∷ 12 ∷ 0x44 ∷ 0x00 ∷ 7 ∷ 4 ∷ 11 ∷ 22 ∷ 33 ∷ 44 ∷ 55 ∷ 66
    ∷ 1 ∷ 0 ∷ 0 ∷ 0 ∷ 0 ∷ 0 ∷ []

-- The same with an identifier said to be of eleven bytes.
abbrev long_nfcid : List ℕ
long_nfcid =
    0x61 ∷ 5 ∷ 23 ∷ 1 ∷ 1 ∷ 2 ∷ 0 ∷ 255 ∷ 0 ∷ 12 ∷ 0x44 ∷ 0x00 ∷ 11 ∷ 4 ∷ 11 ∷ 22 ∷ 33 ∷ 44 ∷ 55
    ∷ 66 ∷ 1 ∷ 0 ∷ 0 ∷ 0 ∷ 0 ∷ 0 ∷ []

-- A successful response to CORE_INIT.
abbrev init_response : List ℕ
init_response = 0x40 ∷ 1 ∷ 17 ∷ []

abbrev after_init : Option Notice × NfcNci
after_init = (
  some (record {
    callback = Callback.cb_core_init;
    status = 0;
    id = 0x4001;
    data_ptr = DataPtr.null;
  }),
  nci_in rfst_idle init_response,
)

init_handled : handle_packet (nci_in rfst_reset init_response) ≡ done after_init
unfolding handle_packet handle_core_event answer Responses.rsp_core_init mt_of pbf_of gid_of oid_of
    uint16_id
init_handled = refl

handle_packet-advance_example : rfst_idle ≡ advance rfst_reset (event_of (buf_of init_response))
handle_packet-advance_example =
    handle_packet-advance (nci_in rfst_reset init_response) after_init.0 after_init.1 (omega arith)
      (omega arith) init_handled

handle_packet-Promises_example : PromisesAll (nci_in rfst_reset init_response) after_init
handle_packet-Promises_example =
    handle_packet-Promises (nci_in rfst_reset init_response) after_init (omega arith) (omega arith)
      init_handled

handle_packet-SameBuffers_example : SameBuffers (nci_in rfst_reset init_response) after_init.1
handle_packet-SameBuffers_example =
    handle_packet-SameBuffers (nci_in rfst_reset init_response) after_init.1 after_init.0
      (omega arith) (omega arith) init_handled

-- The tag is found without a fault.
handle_packet-Completes_example : Completes (handle_packet (nci_in rfst_discovery tag_found))
handle_packet-Completes_example =
    handle_packet-Completes (nci_in rfst_discovery tag_found) (omega arith) (omega arith)
      (λ a. (omega arith, inr (inr (omega arith))))

handle_packet-fault_example : handle_packet (nci_in rfst_discovery long_nfcid) ≡ fault
handle_packet-fault_example =
    handle_packet-fault (nci_in rfst_discovery long_nfcid) (omega arith)
      (record { waiting = refl; byte0 = refl; opcode = refl; long = omega arith })
      (λ f. ground arith)

-- The controller's next packet is a response to CORE_RESET.
abbrev reset_response : List ℕ
reset_response = 0x40 ∷ 0 ∷ 3 ∷ 0 ∷ 0x10 ∷ 1 ∷ []

wait_for_event_total_example :
    (b : Buf) × (w' : List ℕ) × AllBytes b
    × (wait_for_event scripted (nci_in state_none []) reset_response
        ≡ done (if b 2 == 0 then 0 else b 2 + 3, record (nci_in state_none []) { rx_buf = b }, w'))
wait_for_event_total_example =
    wait_for_event_total scripted scripted-IsResponsive (nci_in state_none []) reset_response
      (buf_of-AllBytes [] tt)
