-- ===== src/Tags/Types.antt =====
-- src/tags/NfcTagsDef.h, NfcTagsCb.h, NfcTagsIntf.h and NfcTags.h, and the states of the two
-- state machines: constants, records, and the calls of the application's callbacks.
use arduino_nfc.Common.{ℕ, ◌==◌, if◌then◌else◌, Bool, Option, some}
use arduino_nfc.Common.Outcome.{Outcome, done, fault}
use arduino_nfc.Nci.Types.{DataPtr, status_ok, status_rejected, status_message_corrupted}

-- Status codes.
abbrev pub tags_status_ok : ℕ
tags_status_ok = 0

abbrev pub tags_status_rejected : ℕ
tags_status_rejected = 1

abbrev pub tags_status_failed : ℕ
tags_status_failed = 2

abbrev pub tags_status_message_corrupted : ℕ
tags_status_message_corrupted = 3

-- Tag types.
abbrev pub tags_type_2 : ℕ
tags_type_2 = 2

abbrev pub tags_type_mifare : ℕ
tags_type_mifare = 5

-- Interface identifiers.
abbrev pub tags_id_none : ℕ
tags_id_none = 0

abbrev pub tags_id_reset : ℕ
tags_id_reset = 1

abbrev pub tags_id_discover : ℕ
tags_id_discover = 2

abbrev pub tags_id_discover_activated : ℕ
tags_id_discover_activated = 3

abbrev pub tags_id_deactivate : ℕ
tags_id_deactivate = 4

abbrev pub tags_id_dump : ℕ
tags_id_dump = 5

-- tTAGS_NCI_RSP
pub record NciRsp : Type 0 where
  pub data_ptr : DataPtr
  pub id : ℕ
  pub status : ℕ

-- tTAGS_DUMP
pub record Dump : Type 0 where
  pub buf : DataPtr
  pub len : ℕ
  pub more : ℕ

-- The methods of class NfcTagsCb.
pub data AppCallback : Type 0 where
  cb_reset cb_discover cb_discover_ntf cb_deactivate cb_dump : AppCallback

-- One call of such a method; the only data ever passed are a dump.
pub record AppCall : Type 0 where
  pub callback : AppCallback
  pub status : ℕ
  pub id : ℕ
  pub dump : Option Dump

-- `_p_cb->cb(status, id, data)`, where `registered` is `_p_cb != NULL`.
abbrev pub call : Bool → AppCallback → ℕ → ℕ → Option Dump → Outcome (Option AppCall)
call registered cb status id dump =
    if registered
    then done (some (record { callback = cb; status = status; id = id; dump = dump }))
    else fault

-- The states of NfcTagsIntfType2.
pub data Type2State : Type 0 where
  t2_none t2_dump t2_dump_rsp : Type2State

abbrev pub t2_id_none : ℕ
t2_id_none = 0

abbrev pub t2_id_dump : ℕ
t2_id_dump = 1

-- class NfcTagsIntfType2 with its base class. The base class keeps `_p_rf`, here `rf`.
pub record Type2 : Type 0 where
  pub state : Type2State
  pub id : ℕ
  pub registered : Bool
  pub rf : DataPtr
  pub dump : Dump
  pub block : ℕ

-- class NfcTagsIntfMifare: of its members only `_p_rf` is ever used.
pub record Mifare : Type 0 where
  pub rf : DataPtr

-- The states of NfcTags.
pub data TagsState : Type 0 where
  tags_none init_reset init_init init_done : TagsState
  discover_map discover discover_ntf discover_activated : TagsState
  deactivate deactivate_rsp deactivate_ntf : TagsState
  dumping dump_rsp : TagsState

-- `_p_tagIntf`
pub data TagIntf : Type 0 where
  no_tag to_tag2 to_mifare : TagIntf

-- class NfcTags. Its member `_data` is never used.
pub record NfcTags : Type 0 where
  pub state : TagsState
  pub id : ℕ
  pub registered : Bool
  pub nci_rsp : NciRsp
  pub tag2 : Type2
  pub mifare : Mifare
  pub intf : TagIntf

-- `NfcTags::translateNciStatus`
unfoldable pub translate_nci_status : ℕ → ℕ
translate_nci_status s =
    if s == status_ok
    then tags_status_ok
    else if s == status_rejected
    then tags_status_rejected
    else tags_status_failed

-- `NfcTagsIntf::translateNciStatus`
unfoldable pub translate_intf_status : ℕ → ℕ
translate_intf_status s =
    if s == status_ok
    then tags_status_ok
    else if s == status_rejected
    then tags_status_rejected
    else if s == status_message_corrupted
    then tags_status_message_corrupted
    else tags_status_failed
