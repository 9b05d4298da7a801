-- ===== src/Examples/Tags.antt =====
-- src/tags: the theorems on the tag API, over the scripted controller.
use arduino_nfc.Common.{ℕ, ◌≡◌, List, [], ◌∷◌, refl, Option, some, none, inl, inr, arith}
use arduino_nfc.Common.Outcome.{done, fault}
use arduino_nfc.Nci.Types.{
  NfcNci, state_none, rfst_reset, rfst_idle, rfst_discovery, rfst_poll_active, status_ok, Callback,
  DataPtr, Notice, at_rx, at_deactivate,
}
use arduino_nfc.Nci.Events.{handle_packet}
use arduino_nfc.Tags.Types.{
  NfcTags, AppCall, init_reset, init_init, discover_map, discover_ntf, dumping, no_tag, to_tag2,
  t2_none, t2_dump, t2_dump_rsp, tags_id_dump,
}
use arduino_nfc.Tags.Type2
use arduino_nfc.Tags.Types
use arduino_nfc.Tags.Type2.Reading.{HoldsBlocks, dump_call}
use arduino_nfc.Tags.Type2.Rounds.{dump_complete, rounds, after_reads}
use arduino_nfc.Tags.Callbacks.{on_notice, on_core_reset, on_data}
use arduino_nfc.Tags.Stack.{set_nci_response}
use arduino_nfc.Nci.Header.{uint16_id}
use arduino_nfc.Tags.Handlers.{handle_event}
use arduino_nfc.Tags.Coupling.{InStep, on_notice-InStep}
use arduino_nfc.Tags.Advance.{next_state, on_notice-next_state}
use arduino_nfc.Tags.Sending.{SendsSilently, sending_map, handle_event-SendsSilently}
use arduino_nfc.Tags.Stale.{stale_data-fault, ended_dump-fault}
use arduino_nfc.Examples.{scripted, nci_in, tags_in, type2_in, buf_of}

-- The tag API is about to map its interfaces.
abbrev mapping : NfcTags
mapping = tags_in discover_map 2 no_tag (type2_in t2_none 0)

handle_event-SendsSilently_example :
    SendsSilently scripted
      (0x21 ∷ 0x00 ∷ 10 ∷ 3 ∷ 3 ∷ 1 ∷ 1 ∷ 2 ∷ 1 ∷ 1 ∷ 1 ∷ 1 ∷ 1 ∷ [])
      mapping
      (nci_in rfst_idle [])
      []
      (handle_event scripted mapping (nci_in rfst_idle []) [])
handle_event-SendsSilently_example =
    handle_event-SendsSilently scripted
      (0x21 ∷ 0x00 ∷ 10 ∷ 3 ∷ 3 ∷ 1 ∷ 1 ∷ 2 ∷ 1 ∷ 1 ∷ 1 ∷ 1 ∷ 1 ∷ []) mapping (nci_in rfst_idle [])
      [] (sending_map refl refl) refl refl

-- The reset has succeeded.
abbrev resetting : NfcTags
resetting = tags_in init_reset 1 no_tag (type2_in t2_none 0)

abbrev reset_notice : Notice
reset_notice = record {
  callback = Callback.cb_core_reset;
  status = 0;
  id = 0x4000;
  data_ptr = DataPtr.at_reset;
}

abbrev reset_done : NfcTags
reset_done = record resetting {
  state = init_init;
  nci_rsp = record { data_ptr = DataPtr.at_reset; id = 0x4000; status = 0 };
}

reset_delivered : on_notice reset_notice resetting (nci_in rfst_reset []) ≡ done (none, reset_done)
unfolding on_notice on_core_reset set_nci_response uint16_id
reset_delivered = refl

on_notice-InStep_example : InStep reset_done (nci_in rfst_reset [])
on_notice-InStep_example =
    on_notice-InStep reset_notice resetting (nci_in state_none []) (nci_in rfst_reset []) none
      reset_done (refl, λ k. (refl, refl), λ k. absurd (k refl)) tt reset_delivered

-- A data packet with sixteen bytes of a tag.
abbrev four_blocks : List ℕ
four_blocks =
    0 ∷ 0 ∷ 17 ∷ 4 ∷ 1 ∷ 2 ∷ 3 ∷ 4 ∷ 5 ∷ 6 ∷ 7 ∷ 8 ∷ 9 ∷ 10 ∷ 11 ∷ 12 ∷ 13 ∷ 14 ∷ 15 ∷ 0 ∷ []

abbrev sixteen : List ℕ
sixteen = 4 ∷ 1 ∷ 2 ∷ 3 ∷ 4 ∷ 5 ∷ 6 ∷ 7 ∷ 8 ∷ 9 ∷ 10 ∷ 11 ∷ 12 ∷ 13 ∷ 14 ∷ 15 ∷ []

good : HoldsBlocks sixteen (buf_of four_blocks)
good = record { four = record { size = refl; status = refl }; stands = refl }

dump_complete_example :
    (t' : Types.Type2) × (n' : NfcNci) × (t'.state ≡ t2_none)
    × (rounds scripted
          (buf_of four_blocks ∷ buf_of four_blocks ∷ buf_of four_blocks ∷ buf_of four_blocks ∷ [])
          (Type2.cmd_dump (type2_in t2_none 0)).1
          (nci_in rfst_poll_active [])
          []
        ≡ done (
          (some (dump_call (at_rx 3) 16 1), sixteen)
              ∷ (some (dump_call (at_rx 3) 16 1), sixteen)
              ∷ (some (dump_call (at_rx 3) 16 1), sixteen)
              ∷ (some (dump_call (at_rx 3) 16 0), sixteen)
              ∷ [],
          t',
          n',
          after_reads scripted (0 ∷ 4 ∷ 8 ∷ 12 ∷ []) [],
        ))
dump_complete_example =
    dump_complete scripted (type2_in t2_none 0) (nci_in rfst_poll_active []) [] sixteen sixteen
      sixteen sixteen (buf_of four_blocks) (buf_of four_blocks) (buf_of four_blocks)
      (buf_of four_blocks) (λ b w. refl) refl refl refl good good good good

-- After a deactivation, an announcement of five bytes.
abbrev deactivated : NfcNci
deactivated = record (nci_in rfst_discovery (0x61 ∷ 5 ∷ 5 ∷ [])) { data_ptr = at_deactivate }

abbrev waiting : NfcTags
waiting = tags_in discover_ntf 2 no_tag (type2_in t2_none 0)

stale_data-fault_example :
    (c : Notice) × (handle_packet deactivated ≡ done (some c, deactivated))
    × (on_notice c waiting deactivated ≡ fault)
stale_data-fault_example =
    stale_data-fault waiting deactivated (omega arith)
      (record { byte0 = refl; opcode = refl; fails = inr (omega arith); stale = inr refl })

-- The last four blocks of a dump.
abbrev finishing : NfcTags
finishing = tags_in dumping 5 to_tag2 (type2_in t2_dump_rsp 12)

abbrev last_packet : NfcNci
last_packet = nci_in rfst_poll_active four_blocks

ended_dump-fault_example :
    (c : Option AppCall) × (t' : NfcTags) × (on_data status_ok 0 (at_rx 2) finishing last_packet
      ≡ done (c, t'))
    × (handle_event scripted t' last_packet [] ≡ fault)
ended_dump-fault_example = ended_dump-fault scripted 0 finishing last_packet [] (record {
  id = refl;
  state = refl;
  intf = refl;
  tag_id = refl;
  registered = refl;
  last = inl (omega arith);
})

on_notice-next_state_example : init_init ≡ next_state reset_notice init_reset
on_notice-next_state_example =
    on_notice-next_state reset_notice resetting (nci_in state_none []) (nci_in rfst_reset []) none
      reset_done (refl, λ k. (refl, refl), λ k. absurd (k refl)) reset_delivered
