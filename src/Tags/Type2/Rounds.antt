-- ===== src/Tags/Type2/Rounds.antt =====
-- src/tags/NfcTagsIntfType2.cpp: a whole dump, round by round.
use arduino_nfc.Common.{
  le→leb, ℕ, ◌+◌, ◌≤◌, ◌<◌, ◌≡◌, refl, ltb, if◌then◌else◌, true, Option, some, List, [], ◌∷◌, arith,
}
use arduino_nfc.Common.Outcome.{Outcome, done, ◌>>=◌}
use arduino_nfc.Common.Buffer.{Buf}
use arduino_nfc.Hw.{NfcHw}
use arduino_nfc.Nci.Types.{NfcNci, at_rx, rfst_poll_active, status_ok}
use arduino_nfc.Nci.Commands.Packets.{data_send-Sends}
use arduino_nfc.Tags.Types.{
  Type2, t2_none, t2_dump, t2_dump_rsp, t2_id_dump, AppCall, tags_status_ok, translate_intf_status,
}
use arduino_nfc.Tags.Type2.{cmd_read, take_blocks, handle_data, handle_dump, cmd_dump}
use arduino_nfc.Tags.Type2.Reading.{
  FourBlocks, dump_call, handed, HoldsBlocks, handed-HoldsBlocks, handle_data-takes,
}

module _ (hw : NfcHw) where
  open hw use {World}

  -- The hardware takes the READ command for a block, in a data packet.
  abbrev pub read_packet : ℕ → List ℕ
  read_packet block = 0 ∷ 0 ∷ 2 ∷ cmd_read ∷ block ∷ []

  abbrev pub TakesReads : Type 0
  TakesReads = (block : ℕ) (w : World) → (hw.write (read_packet block) w).0 ≡ 5

  -- The next READ command is sent, and the state waits for its answer.
  pub handle_dump-Sends :
      (t : Type2) (n : NfcNci) (w : World)
      → TakesReads
      → n.state ≡ rfst_poll_active
      → t.state ≡ t2_dump
      → t.block ≤ 12
      → (tx : Buf) × (handle_dump hw t n w
          ≡ done (
            tags_status_ok,
            record t { state = t2_dump_rsp },
            record n { tx_buf = tx },
            (hw.write (read_packet t.block) w).1,
          ))
  unfolding handle_dump translate_intf_status
  handle_dump-Sends t n w takes active s b =
      let (tx, e) =
        data_send-Sends hw 0 (cmd_read ∷ t.block ∷ []) n w active (omega arith) (omega arith) in
      (tx, rw (s, le→leb t.block 12 b, e, takes t.block w))

  -- One round of a dump: the READ command, and the data packet that answers it, which the NCI layer
  -- leaves in its receive buffer before it calls `cbData`.
  unfoldable pub round :
      Type2 → NfcNci → World → Buf → Outcome (Option AppCall × Type2 × NfcNci × World)
  round t n w answer = do
    (status, t', n', w') ← handle_dump hw t n w
    let n'' = record n' { rx_buf = answer }
    (c, t'') ← handle_data status_ok (at_rx 2) t' n''
    done (c, t'', n'', w')

  -- The rounds of a dump, with the calls of the application and the bytes that each hands on.
  unfoldable pub rounds :
      List Buf
      → Type2
      → NfcNci
      → World
      → Outcome (List (Option AppCall × List ℕ) × Type2 × NfcNci × World)
  rounds [] t n w = done ([], t, n, w)
  rounds (b ∷ bs) t n w = do
    (c, t', n', w') ← round t n w b
    (cs, t'', n'', w'') ← rounds bs t' n' w'
    done ((c, handed c n') ∷ cs, t'', n'', w'')

  -- The state is about to send the READ command for the block.
  pub record Asks (t : Type2) (block : ℕ) : Type 0 where
    pub registered : t.registered ≡ true
    pub id : t.id ≡ t2_id_dump
    pub state : t.state ≡ t2_dump
    pub at_block : t.block ≡ block

  -- A command in the state NONE starts a dump at block 0.
  pub cmd_dump-Asks : (t : Type2) → t.registered ≡ true → t.state ≡ t2_none → Asks (cmd_dump t).1 0
  unfolding cmd_dump
  cmd_dump-Asks t r s = record {
    registered = ground (arith, r);
    id = ground (arith, s);
    state = ground (arith, s);
    at_block = ground (arith, s);
  }

  round_lem :
      (t : Type2) (n : NfcNci) (w : World) (answer : Buf) (block : ℕ)
      → TakesReads
      → n.state ≡ rfst_poll_active
      → FourBlocks answer
      → Asks t block
      → block ≤ 12
      → (n' : NfcNci) × (n'.state ≡ rfst_poll_active)
        × (n'.rx_buf ≡ answer)
        × (round t n w answer
            ≡ done (
              some (dump_call (at_rx 3) 16 (if ltb block 12 then 1 else 0)),
              take_blocks 17 (at_rx 2) (record t { state = t2_dump_rsp }),
              n',
              (hw.write (read_packet block) w).1,
            ))
  unfolding round
  round_lem t n w answer block takes active m a b =
      let (tx, e) = handle_dump-Sends t n w takes active a.state (omega (arith, a.at_block)) in
      let n' = record n { tx_buf = tx; rx_buf = answer } in
      let e' = handle_data-takes (record t { state = t2_dump_rsp }) n' a.registered a.id m in
      (n', active, refl, rw (e, e', a.at_block))

  -- The state after a round whose answer was good, if more blocks follow.
  pub take_blocks-Asks :
      (t : Type2) (block : ℕ)
      → Asks t block
      → block < 12
      → Asks (take_blocks 17 (at_rx 2) (record t { state = t2_dump_rsp })) (block + 4)
  unfolding take_blocks
  take_blocks-Asks t block a h = record {
    registered = ground (arith, a.registered);
    id = ground (arith, a.id);
    state = ground (arith, a.at_block);
    at_block = ground (arith, a.at_block);
  }

  pub take_blocks_ends :
      (t : Type2)
      → Asks t 12
      → (take_blocks 17 (at_rx 2) (record t { state = t2_dump_rsp })).state ≡ t2_none
  unfolding take_blocks
  take_blocks_ends t a = ground (arith, a.at_block)

  pub take_blocks_registered :
      (t : Type2)
      → Asks t 12
      → (take_blocks 17 (at_rx 2) (record t { state = t2_dump_rsp })).registered ≡ true
  unfolding take_blocks
  take_blocks_registered t a = ground (arith, a.at_block, a.registered)

  -- The world after the READ commands for these blocks.
  abbrev pub after_reads : List ℕ → World → World
  after_reads [] w = w
  after_reads (b ∷ bs) w = after_reads bs (hw.write (read_packet b) w).1

  -- An application is registered, an interface is active, the hardware takes the READ commands, and the
  -- tag answers each with the sixteen bytes of four blocks: then a dump that is started in the state NONE
  -- takes exactly four rounds. They send the READ command for the blocks 0, 4, 8 and 12, hand exactly
  -- these bytes to the application in their order, say of all but the last that more follow, and lead back
  -- to the state NONE.
  pub dump_complete :
      (t : Type2) (n : NfcNci) (w : World) (m0 m1 m2 m3 : List ℕ) (b0 b1 b2 b3 : Buf)
      → TakesReads
      → n.state ≡ rfst_poll_active
      → t.state ≡ t2_none
      → t.registered ≡ true
      → HoldsBlocks m0 b0
      → HoldsBlocks m1 b1
      → HoldsBlocks m2 b2
      → HoldsBlocks m3 b3
      → (t' : Type2) × (n' : NfcNci) × (t'.state ≡ t2_none)
        × (rounds (b0 ∷ b1 ∷ b2 ∷ b3 ∷ []) (cmd_dump t).1 n w
            ≡ done (
              (some (dump_call (at_rx 3) 16 1), m0)
                  ∷ (some (dump_call (at_rx 3) 16 1), m1)
                  ∷ (some (dump_call (at_rx 3) 16 1), m2)
                  ∷ (some (dump_call (at_rx 3) 16 0), m3)
                  ∷ [],
              t',
              n',
              after_reads (0 ∷ 4 ∷ 8 ∷ 12 ∷ []) w,
            ))
  unfolding rounds
  dump_complete t n w m0 m1 m2 m3 b0 b1 b2 b3 takes active idle reg h0 h1 h2 h3 =
      let t0 = (cmd_dump t).1 in
      let a0 = cmd_dump-Asks t reg idle in
      let (n1, s1, r1, e1) = round_lem t0 n w b0 0 takes active h0.four a0 (omega arith) in
      let t1 = take_blocks 17 (at_rx 2) (record t0 { state = t2_dump_rsp }) in
      let a1 = take_blocks-Asks t0 0 a0 (omega arith) in
      let (n2, s2, r2, e2) =
        round_lem t1 n1 (after_reads (0 ∷ []) w) b1 4 takes s1 h1.four a1 (omega arith) in
      let t2 = take_blocks 17 (at_rx 2) (record t1 { state = t2_dump_rsp }) in
      let a2 = take_blocks-Asks t1 4 a1 (omega arith) in
      let (n3, s3, r3, e3) =
        round_lem t2 n2 (after_reads (0 ∷ 4 ∷ []) w) b2 8 takes s2 h2.four a2 (omega arith) in
      let t3 = take_blocks 17 (at_rx 2) (record t2 { state = t2_dump_rsp }) in
      let a3 = take_blocks-Asks t2 8 a2 (omega arith) in
      let (n4, s4, r4, e4) =
        round_lem t3 n3 (after_reads (0 ∷ 4 ∷ 8 ∷ []) w) b3 12 takes s3 h3.four a3 (omega arith) in
      (
        take_blocks 17 (at_rx 2) (record t3 { state = t2_dump_rsp }),
        n4,
        take_blocks_ends t3 a3,
        rw (
          e1,
          e2,
          e3,
          e4,
          handed-HoldsBlocks m0 b0 1 n1 h0 r1,
          handed-HoldsBlocks m1 b1 1 n2 h1 r2,
          handed-HoldsBlocks m2 b2 1 n3 h2 r3,
          handed-HoldsBlocks m3 b3 0 n4 h3 r4,
        ),
      )
