-- ===== src/Tags/Interface.antt =====
-- src/tags/NfcTagsIntfMifare.cpp, and the calls through `_p_tagIntf` of src/tags/NfcTags.cpp.
use arduino_nfc.Common.{ℕ, Option, none}
use arduino_nfc.Common.Outcome.{Outcome, done, fault, ◌>>=◌}
use arduino_nfc.Common.Buffer.{Buf}
use arduino_nfc.Hw.{NfcHw}
use arduino_nfc.Nci.Types.{NfcNci, DataPtr, null}
use arduino_nfc.Tags.Types.{
  Mifare, NfcTags, TagIntf, no_tag, to_tag2, to_mifare, AppCall, tags_status_rejected, tags_type_2,
  tags_type_mifare,
}
use arduino_nfc.Tags.Type2

-- The constructor
abbrev pub construct_mifare : Mifare
construct_mifare = record { rf = null }

-- `NfcTagsIntfMifare::getType`
abbrev mifare_get_type : ℕ
mifare_get_type = tags_type_mifare

-- `NfcTagsIntfMifare::handleData`
abbrev mifare_handle_data : Mifare → Option AppCall × Mifare
mifare_handle_data m = (none, m)

-- `NfcTagsIntfMifare::cmdDump` and `handleDump`: not implemented in the source either.
unfoldable pub mifare_cmd_dump : Mifare → ℕ × Mifare
mifare_cmd_dump m = (tags_status_rejected, m)

unfoldable pub mifare_handle_dump : Mifare → ℕ × Mifare
mifare_handle_dump m = (tags_status_rejected, m)

-- `_p_tagIntf->getType()`
unfoldable pub get_type : TagIntf → Outcome ℕ
get_type no_tag = fault
get_type to_tag2 = done tags_type_2
get_type to_mifare = done mifare_get_type

-- `_p_tagIntf->getNfcidLen()` and `getNfcidBuf()`: both interfaces have the same two.
unfoldable pub intf_get_nfcid_len : NfcTags → NfcNci → Outcome ℕ
unfolding Type2.get_nfcid_len
intf_get_nfcid_len t n = elim t.intf [
  | no_tag ↦ fault
  | to_tag2 ↦ Type2.get_nfcid_len t.tag2.rf n
  | to_mifare ↦ Type2.get_nfcid_len t.mifare.rf n
]

unfoldable pub intf_get_nfcid_buf : NfcTags → NfcNci → Outcome (Option Buf)
unfolding Type2.get_nfcid_buf
intf_get_nfcid_buf t n = elim t.intf [
  | no_tag ↦ fault
  | to_tag2 ↦ Type2.get_nfcid_buf t.tag2.rf n
  | to_mifare ↦ Type2.get_nfcid_buf t.mifare.rf n
]

-- `_p_tagIntf->cmdDump()`
unfoldable pub intf_cmd_dump : NfcTags → Outcome (ℕ × NfcTags)
unfolding Type2.cmd_dump mifare_cmd_dump
intf_cmd_dump t = elim t.intf [
  | no_tag ↦ fault
  | to_tag2 ↦ let (status, t2) = Type2.cmd_dump t.tag2 in done (status, record t { tag2 = t2 })
  | to_mifare ↦ let (status, m) = mifare_cmd_dump t.mifare in done (status, record t { mifare = m })
]

-- `_p_tagIntf->handleData(status, id, data)`
unfoldable pub intf_handle_data :
    ℕ → DataPtr → NfcTags → NfcNci → Outcome (Option AppCall × NfcTags)
intf_handle_data status ptr t n = elim t.intf [
  | no_tag ↦ fault
  | to_tag2 ↦ do (c, t2) ← Type2.handle_data status ptr t.tag2 n; done (c, record t { tag2 = t2 })
  | to_mifare ↦ let (c, m) = mifare_handle_data t.mifare in done (c, record t { mifare = m })
]

module _ (hw : NfcHw) where
  open hw use {World}

  -- `_p_tagIntf->handleDump()`
  unfoldable pub intf_handle_dump :
      NfcTags → NfcNci → World → Outcome (ℕ × NfcTags × NfcNci × World)
  unfolding mifare_handle_dump
  intf_handle_dump t n w = elim t.intf [
    | no_tag ↦ fault
    | to_tag2 ↦ do
      (status, t2, n', w') ← Type2.handle_dump hw t.tag2 n w
      done (status, record t { tag2 = t2 }, n', w')
    | to_mifare ↦
        let (status, m) = mifare_handle_dump t.mifare in
        done (status, record t { mifare = m }, n, w)
  ]
