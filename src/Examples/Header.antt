-- ===== src/Examples/Header.antt =====
-- src/nci/NfcNci.h: the header macros at one packet.
use arduino_nfc.Common.{ℕ, ◌↔◌, ◌≡◌, arith}
use arduino_nfc.Nci.Header.{hdr0, mt_of, pbf_of, gid_of}
use arduino_nfc.Nci.Header.RoundTrip.{parse-hdr0, message_id, uint16_id_identifies}

-- The header of an RF notification.
parse-hdr0_example : (mt_of (hdr0 3 1) ≡ 3) × (pbf_of (hdr0 3 1) ≡ 0) × (gid_of (hdr0 3 1) ≡ 1)
parse-hdr0_example = parse-hdr0 3 1 (omega arith) (omega arith)

-- The responses to CORE_RESET and to RF_DISCOVER_MAP have one identifier.
uint16_id_identifies_example : (message_id 2 0 0 ≡ message_id 2 1 0) ↔ (Path ℕ 2 2 × Path ℕ 0 0)
uint16_id_identifies_example =
    uint16_id_identifies 2 0 0 2 1 0 (omega arith) (omega arith) (omega arith) (omega arith)
      (omega arith) (omega arith)
