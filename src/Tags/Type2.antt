-- ===== src/Tags/Type2.antt =====
-- src/tags/NfcTagsIntfType2.cpp: the interface of a type 2 tag, and the dump of its memory. Log lines
-- are left out.
pub mod Reading
pub mod Rounds
use arduino_nfc.Common.{
  ℕ, ◌+◌, ◌-◌, ◌*◌, ◌%◌, ◌==◌, leb, ltb, if◌then◌else◌, Bool, false, Option, none, some, [], ◌∷◌,
}
use arduino_nfc.Common.Outcome.{Outcome, done, fault, ◌>>=◌}
use arduino_nfc.Common.Buffer.{Buf, load}
use arduino_nfc.Hw.{NfcHw}
use arduino_nfc.Nci.Types.{
  NfcNci, DataPtr, null, at_rf_intf, at_rx, nci_packet_size, status_rejected,
}
use arduino_nfc.Nci.Commands.{data_send}
use arduino_nfc.Tags.Types.{
  Type2, t2_none, t2_dump, t2_dump_rsp, t2_id_dump, Dump, AppCall, cb_dump, call, tags_status_ok,
  tags_status_rejected, tags_id_dump, translate_intf_status,
}

abbrev pub cmd_read : ℕ
cmd_read = 0x30

abbrev pub memory_block_size_bytes : ℕ
memory_block_size_bytes = 4

abbrev pub memory_read_block : ℕ
memory_read_block = 4

abbrev pub memory_first_block : ℕ
memory_first_block = 0

abbrev pub memory_last_block : ℕ
memory_last_block = 15

-- The constructor; the members that it leaves indeterminate are its arguments.
unfoldable pub construct_type2 : ℕ → Dump → ℕ → Type2
construct_type2 id dump block = record {
  state = t2_none;
  id = id;
  registered = false;
  rf = null;
  dump = dump;
  block = block;
}

-- `init(cb)` of NfcTagsIntf; the argument is `cb != NULL`.
abbrev pub init_intf : Bool → Type2 → Type2
init_intf cb t = record t { registered = cb }

-- `initTag` of NfcTagsIntf
abbrev pub init_tag : DataPtr → Type2 → Type2
init_tag rf t = record t { rf = rf }

-- `getNfcidLen`, for the tag interface that `_p_rf` points to, in the object of the NCI layer.
unfoldable pub get_nfcid_len : DataPtr → NfcNci → Outcome ℕ
get_nfcid_len null n = done 0
get_nfcid_len at_rf_intf n = done n.rf_intf.poll_a.nfcid_len
get_nfcid_len _ n = fault

-- `getNfcidBuf`: the array that the pointer points to, if it is not null.
unfoldable pub get_nfcid_buf : DataPtr → NfcNci → Outcome (Option Buf)
get_nfcid_buf null n = done none
get_nfcid_buf at_rf_intf n = done (some n.rf_intf.poll_a.nfcid)
get_nfcid_buf _ n = fault

unfoldable pub cmd_dump : Type2 → ℕ × Type2
cmd_dump t = elim t.state [
  | t2_none ↦
      (tags_status_ok, record t { id = t2_id_dump; state = t2_dump; block = memory_first_block })
  | _ ↦ (tags_status_rejected, t)
]

-- `buf[i]`, for a pointer that the NCI layer passed as data.
unfoldable pub deref : DataPtr → ℕ → NfcNci → Outcome ℕ
deref (at_rx p) i n = load nci_packet_size n.rx_buf (p + i)
deref _ i n = fault

-- `&buf[1]`
abbrev pub successor : DataPtr → DataPtr
successor (at_rx p) = at_rx (p + 1)
successor ptr = ptr

-- The test of `handleDataDump`, whose `&&` read the buffer only if the status is OK.
unfoldable pub is_complete : ℕ → DataPtr → NfcNci → Outcome Bool
is_complete status ptr n =
    if status == tags_status_ok
    then (do
      len ← deref ptr 0 n
      if len == memory_read_block * memory_block_size_bytes + 1
          then (do
            last ← deref ptr (memory_read_block * memory_block_size_bytes + 1) n
            done (last == 0))
          else done false)
    else done false

-- The state after a message of the expected form.
unfoldable pub take_blocks : ℕ → DataPtr → Type2 → Type2
take_blocks len ptr t =
    if ltb t.block (memory_last_block + 1 - memory_read_block)
    then record t {
      dump = record { buf = successor ptr; len = len - 1; more = 1 };
      state = t2_dump;
      block = (t.block + memory_read_block) % 256;
    }
    else record t {
      dump = record { buf = successor ptr; len = len - 1; more = 0 };
      state = t2_none;
    }

-- The state after any other.
unfoldable pub drop_dump : Type2 → Type2
drop_dump t = record t { dump = record { buf = null; len = 0; more = 0 }; state = t2_none }

unfoldable pub handle_data_dump : ℕ → DataPtr → Type2 → NfcNci → Outcome (Option AppCall × Type2)
handle_data_dump nci_status ptr t n = do
  let status = translate_intf_status nci_status
  complete ← is_complete status ptr n
  t' ←
      if complete
      then (do len ← deref ptr 0 n; done (take_blocks len ptr t))
      else done (drop_dump t)
  c ← call t'.registered cb_dump status tags_id_dump (some t'.dump)
  done (c, t')

unfoldable pub handle_data : ℕ → DataPtr → Type2 → NfcNci → Outcome (Option AppCall × Type2)
handle_data status ptr t n =
    if t.id == t2_id_dump then handle_data_dump status ptr t n else done (none, t)

module _ (hw : NfcHw) where
  open hw use {World}

  -- In the state NONE no branch sets `status`, which is then read.
  unfoldable pub handle_dump : Type2 → NfcNci → World → Outcome (ℕ × Type2 × NfcNci × World)
  handle_dump t n w = elim t.state [
    | t2_none ↦ fault
    | t2_dump ↦
        if leb t.block (memory_last_block + 1 - memory_read_block)
        then (do
          (status, n', w') ← data_send hw 0 (cmd_read ∷ t.block ∷ []) 2 n w
          done (translate_intf_status status, record t { state = t2_dump_rsp }, n', w'))
        else done (translate_intf_status status_rejected, t, n, w)
    | t2_dump_rsp ↦ done (tags_status_ok, t, n, w)
  ]
