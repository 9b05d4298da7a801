-- ===== src/Nci/Header.antt =====
-- src/nci/NfcNci.h, lines 44-131: the macros that build and take apart packet headers.
pub mod RoundTrip
use arduino_nfc.Common.{ℕ, ◌*◌, ◌/◌, ◌%◌, ◌^◌, bit_and, bit_or}

-- The fields of the first two bytes.
abbrev mt_mask : ℕ
mt_mask = 0xE0

abbrev mt_shift : ℕ
mt_shift = 5

abbrev pbf_mask : ℕ
pbf_mask = 0x10

abbrev pbf_shift : ℕ
pbf_shift = 4

abbrev gid_mask : ℕ
gid_mask = 0x0F

abbrev oid_mask : ℕ
oid_mask = 0x3F

-- NCI_MSG_BLD_HDR0
unfoldable pub hdr0 : ℕ → ℕ → ℕ
hdr0 mt gid = bit_or (mt * 2 ^ mt_shift) gid % 256

-- NCI_MSG_BLD_HDR1
unfoldable pub hdr1 : ℕ → ℕ
hdr1 oid = oid % 256

-- NCI_MSG_PRS_HDR0, its three results
unfoldable pub mt_of : ℕ → ℕ
mt_of b = bit_and b mt_mask / 2 ^ mt_shift

unfoldable pub pbf_of : ℕ → ℕ
pbf_of b = bit_and b pbf_mask / 2 ^ pbf_shift

unfoldable pub gid_of : ℕ → ℕ
gid_of b = bit_and b gid_mask

-- NCI_MSG_PRS_HDR1
unfoldable pub oid_of : ℕ → ℕ
oid_of b = bit_and b oid_mask

-- UINT16_ID, in 16 bits
unfoldable pub uint16_id : ℕ → ℕ → ℕ
uint16_id mt oid = bit_and (bit_or (mt * 2 ^ 13) oid % 2 ^ 16) 0xE03F
