-- ===== src/Examples/Packets.antt =====
-- src/nci/NfcNci.cpp: the commands at concrete arguments, over the scripted controller.
use arduino_nfc.Common.{
  ℕ, zero, suc, ◌≡◌, ◌-◌, List, [], ◌∷◌, length, take, refl, some, IsBytes, arith,
}
use arduino_nfc.Common.Outcome.{fault}
use arduino_nfc.Nci.Types.{rfst_idle, rfst_poll_active}
use arduino_nfc.Nci.Commands.{data_send}
use arduino_nfc.Nci.Commands.Packets.{Sends, data_send_truncates, data_send-fault}
use arduino_nfc.Nci.Session.{issue, map_with}
use arduino_nfc.Tags.Stack.{discover_maps}
use arduino_nfc.Nci.Contract.{frame, map_entry, issue-Sends}
use arduino_nfc.Nci.Commands.Format.{backwards}
use arduino_nfc.Examples.Controller.{are_bytes-IsBytes}
use arduino_nfc.Examples.{scripted, nci_in}

-- The maps of the tag API.
issue-Sends_example :
    Sends scripted
      (0x21 ∷ 0x00 ∷ 10 ∷ 3 ∷ 3 ∷ 1 ∷ 1 ∷ 2 ∷ 1 ∷ 1 ∷ 1 ∷ 1 ∷ 1 ∷ [])
      (nci_in rfst_idle [])
      []
      (issue scripted (map_with 3 (some discover_maps)) (nci_in rfst_idle []) [])
unfolding frame
issue-Sends_example =
    issue-Sends scripted (map_with 3 (some discover_maps)) (nci_in rfst_idle []) [] refl
      (refl, are_bytes-IsBytes (backwards map_entry discover_maps) refl, omega arith)

abbrev zeros : ℕ → List ℕ
zeros zero = []
zeros (suc n) = 0 ∷ zeros n

zeros-IsBytes : (n : ℕ) → IsBytes (zeros n)
zeros-IsBytes zero = tt
zeros-IsBytes (suc n) = (omega arith, zeros-IsBytes n)

-- Of a packet with 255 bytes of payload two bytes are sent.
data_send_truncates_example :
    Sends scripted
      (take (length (zeros 255) - 253) (0 ∷ 0 ∷ length (zeros 255) ∷ zeros 255))
      (nci_in rfst_poll_active [])
      []
      (data_send scripted 0 (zeros 255) (length (zeros 255)) (nci_in rfst_poll_active []) [])
data_send_truncates_example =
    data_send_truncates scripted 0 (zeros 255) (nci_in rfst_poll_active []) [] refl
      (zeros-IsBytes 255) (omega arith) (omega arith)

data_send-fault_example :
    data_send scripted 0 (zeros 256) 256 (nci_in rfst_poll_active []) [] ≡ fault
data_send-fault_example =
    data_send-fault scripted 0 (zeros 256) 256 (nci_in rfst_poll_active []) [] refl (omega arith)
