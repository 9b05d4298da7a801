-- ===== src/Tags/Chosen.antt =====
-- src/tags/NfcTags.cpp: what `identifyTag` changes of the tag API, and what it keeps.
use arduino_nfc.Common.{◌≡◌, refl, Option, none, some}
use arduino_nfc.Nci.Types.{DataPtr, at_rf_intf}
use arduino_nfc.Tags.Types.{NfcTags, TagIntf, no_tag, to_tag2, to_mifare}
use arduino_nfc.Tags.Stack.{choose}

pub choose-registered :
    (o : Option TagIntf) (t : NfcTags) → (choose at_rf_intf o t).registered ≡ t.registered
unfolding choose
choose-registered none t = refl
choose-registered (some no_tag) t = refl
choose-registered (some to_tag2) t = refl
choose-registered (some to_mifare) t = refl

pub choose-id : (o : Option TagIntf) (t : NfcTags) → (choose at_rf_intf o t).id ≡ t.id
unfolding choose
choose-id none t = refl
choose-id (some no_tag) t = refl
choose-id (some to_tag2) t = refl
choose-id (some to_mifare) t = refl

pub choose-state : (o : Option TagIntf) (t : NfcTags) → (choose at_rf_intf o t).state ≡ t.state
unfolding choose
choose-state none t = refl
choose-state (some no_tag) t = refl
choose-state (some to_tag2) t = refl
choose-state (some to_mifare) t = refl

-- The tag's interface, or the one before.
abbrev pub chosen : Option TagIntf → TagIntf → TagIntf
chosen none i = i
chosen (some j) i = j

pub choose-intf :
    (o : Option TagIntf) (t : NfcTags) → (choose at_rf_intf o t).intf ≡ chosen o t.intf
unfolding choose
choose-intf none t = refl
choose-intf (some no_tag) t = refl
choose-intf (some to_tag2) t = refl
choose-intf (some to_mifare) t = refl

-- The object that the interface of type 2 points to.
abbrev pub pointed : Option TagIntf → DataPtr → DataPtr
pointed (some to_tag2) ptr = at_rf_intf
pointed _ ptr = ptr

pub choose-tag2 :
    (o : Option TagIntf) (t : NfcTags) → (choose at_rf_intf o t).tag2.rf ≡ pointed o t.tag2.rf
unfolding choose
choose-tag2 none t = refl
choose-tag2 (some no_tag) t = refl
choose-tag2 (some to_tag2) t = refl
choose-tag2 (some to_mifare) t = refl

-- The object that the Mifare interface points to.
abbrev pub pointed_mifare : Option TagIntf → DataPtr → DataPtr
pointed_mifare (some to_mifare) ptr = at_rf_intf
pointed_mifare _ ptr = ptr

pub choose-mifare :
    (o : Option TagIntf) (t : NfcTags)
    → (choose at_rf_intf o t).mifare.rf ≡ pointed_mifare o t.mifare.rf
unfolding choose
choose-mifare none t = refl
choose-mifare (some no_tag) t = refl
choose-mifare (some to_tag2) t = refl
choose-mifare (some to_mifare) t = refl

pub choose-tag2_state :
    (o : Option TagIntf) (t : NfcTags) → (choose at_rf_intf o t).tag2.state ≡ t.tag2.state
unfolding choose
choose-tag2_state none t = refl
choose-tag2_state (some no_tag) t = refl
choose-tag2_state (some to_tag2) t = refl
choose-tag2_state (some to_mifare) t = refl

pub choose-tag2_registered :
    (o : Option TagIntf) (t : NfcTags) → (choose at_rf_intf o t).tag2.registered ≡ t.tag2.registered
unfolding choose
choose-tag2_registered none t = refl
choose-tag2_registered (some no_tag) t = refl
choose-tag2_registered (some to_tag2) t = refl
choose-tag2_registered (some to_mifare) t = refl
