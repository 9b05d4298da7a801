-- ===== src/Tags/Type2/Reading.antt =====
-- src/tags/NfcTagsIntfType2.cpp: what the dump of a type 2 tag reads and reports.
use arduino_nfc.Common.{
  ℕ, ◌≡◌, ◌≢◌, ltb, if◌then◌else◌, true, ap, ◌∙◌, Option, none, some, List, [], arith,
}
use arduino_nfc.Common.Outcome.{done}
use arduino_nfc.Common.Buffer.{Buf, slice}
use arduino_nfc.Nci.Types.{NfcNci, DataPtr, null, at_rx, status_ok}
use arduino_nfc.Tags.Types.{
  Type2, t2_id_dump, AppCall, Dump, cb_dump, tags_status_ok, tags_id_dump, translate_intf_status,
}
use arduino_nfc.Tags.Type2.{
  deref, is_complete, take_blocks, drop_dump, handle_data_dump, handle_data,
}

-- A message with the sixteen bytes of four blocks: 17 bytes of payload, of which the last is 0.
pub record FourBlocks (b : Buf) : Type 0 where
  pub size : b 2 ≡ 17
  pub status : b 19 ≡ 0

-- The call of the application with a dump.
abbrev pub dump_call : DataPtr → ℕ → ℕ → AppCall
dump_call ptr len more = record {
  callback = cb_dump;
  status = tags_status_ok;
  id = tags_id_dump;
  dump = some (record { buf = ptr; len = len; more = more });
}

-- The bytes that stand where a call of `cbDump` points to.
abbrev bytes_at : DataPtr → ℕ → NfcNci → List ℕ
bytes_at (at_rx i) len n = slice n.rx_buf i len
bytes_at _ len n = []

abbrev dump_bytes : Option Dump → NfcNci → List ℕ
dump_bytes none n = []
dump_bytes (some d) n = bytes_at d.buf d.len n

abbrev pub handed : Option AppCall → NfcNci → List ℕ
handed none n = []
handed (some c) n = dump_bytes c.dump n

-- A message with these bytes of four blocks.
pub record HoldsBlocks (blocks : List ℕ) (b : Buf) : Type 0 where
  pub four : FourBlocks b
  pub stands : slice b 3 16 ≡ blocks

pub handed-HoldsBlocks :
    (blocks : List ℕ) (b : Buf) (more : ℕ) (n : NfcNci)
    → HoldsBlocks blocks b
    → n.rx_buf ≡ b
    → handed (some (dump_call (at_rx 3) 16 more)) n ≡ blocks
handed-HoldsBlocks blocks b more n h e = ap (λ x. slice x 3 16) e ∙ h.stands

-- With an application registered, a dump under way and the status OK, a message of four blocks is
-- handed to the application: its sixteen bytes, and whether more follow, which is so while the block is
-- below 12. Then the next four blocks are asked for, and after the last of them the dump ends.
pub handle_data-takes :
    (t : Type2) (n : NfcNci)
    → t.registered ≡ true
    → t.id ≡ t2_id_dump
    → FourBlocks n.rx_buf
    → handle_data status_ok (at_rx 2) t n
      ≡ done (
        some (dump_call (at_rx 3) 16 (if ltb t.block 12 then 1 else 0)),
        take_blocks 17 (at_rx 2) t,
      )
unfolding handle_data handle_data_dump is_complete deref take_blocks translate_intf_status
handle_data-takes t n r i m = ground (arith, m.size, m.status)

-- With an application registered, a dump under way and the status OK, a message of the wrong length, or
-- whose last byte is not 0, drops the dump, and the application is told that its status is OK, with an
-- empty dump and no more to come.
pub handle_data-corrupted :
    (t : Type2) (n : NfcNci)
    → t.registered ≡ true
    → t.id ≡ t2_id_dump
    → ¬ FourBlocks n.rx_buf
    → handle_data status_ok (at_rx 2) t n ≡ done (some (dump_call null 0 0), drop_dump t)
unfolding handle_data handle_data_dump is_complete deref drop_dump translate_intf_status
handle_data-corrupted t n r i m =
    let other : n.rx_buf 2 ≡ 17 → n.rx_buf 19 ≢ 0 = λ a b. m (record { size = a; status = b }) in
    ground (arith, other)
