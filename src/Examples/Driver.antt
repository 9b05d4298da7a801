-- ===== src/Examples/Driver.antt =====
-- src/hw/NfcHw_pn7120.cpp: the driver on boards whose Wire library always gets what it asks for.
use arduino_nfc.Common.{ℕ, ◌-◌, ◌≡◌, true, refl, ap, List, [], ◌∷◌, length, arith}
use arduino_nfc.Common.Outcome.{done}
use arduino_nfc.Nci.Types.{rfst_idle}
use arduino_nfc.Nci.Events.{wait_for_event}
use arduino_nfc.Nci.Events.Receiving.{Packet, received}
use arduino_nfc.Hw.Pn7120.Transfers.{Fifo, high, wait_for_event-Transfer}
use arduino_nfc.Examples.{nci_in, next_bytes, skip_bytes}
use arduino_nfc.Hw.{Reads}
use arduino_nfc.Hw.Pn7120.{Board, Buffers, at_once, driver, read-Reads}

-- The state is the number of bytes pending; each is 7.
abbrev board : Board
board = record {
  State = ℕ;
  pin_mode = λ pin mode s. s;
  digital_write = λ pin high s. s;
  digital_read = λ pin s. (true, s);
  delay = λ ms s. s;
  begin = λ s. s;
  begin_transmission = λ address s. s;
  write = λ x s. s;
  end_transmission = λ s. s;
  request_from = λ address n s. n;
  read = λ s. (7, s - 1);
  available = λ s. (s, s);
}

board_lem : Buffers board
board_lem = record {
  pending = λ s. s;
  counts = λ s. refl;
  takes = λ s. refl;
  fills = λ address n s. omega arith;
}

-- The header of a packet.
read-Reads_example : Reads (driver board 2 4 40 1) 3 0
read-Reads_example = read-Reads board 2 4 40 board_lem 1 (λ s. at_once refl) 3 0

abbrev first_of : List ℕ → ℕ
first_of [] = 0
first_of (x ∷ xs) = x

-- A Wire library with the bytes that the controller will send, and those that it has received.
abbrev serial : Board
serial = record {
  State = List ℕ × List ℕ;
  pin_mode = λ pin mode s. s;
  digital_write = λ pin high s. s;
  digital_read = λ pin s. (true, s);
  delay = λ ms s. s;
  begin = λ s. s;
  begin_transmission = λ address s. s;
  write = λ x s. s;
  end_transmission = λ s. s;
  request_from = λ address n s. (skip_bytes n s.0, next_bytes n s.0);
  read = λ s. (first_of s.1, (s.0, skip_bytes 1 s.1));
  available = λ s. (length s.1, s);
}

abbrev serial_fifo : Fifo serial
serial_fifo = record {
  pending = λ s. s.1;
  counts = λ s. refl;
  gives = λ s x xs e. ap first_of e;
  takes = λ s x xs e. ap (skip_bytes 1) e;
}

-- A response and its two transfers.
abbrev map_rsp : Packet
map_rsp = record { byte0 = 0x41; byte1 = 0; first = 0; rest = [] }

abbrev on_wire : List ℕ × List ℕ
on_wire = (0x41 ∷ 0 ∷ 1 ∷ 0 ∷ [], [])

wait_for_event-Transfer_example :
    wait_for_event (driver serial 2 4 40 1) (nci_in rfst_idle []) on_wire
    ≡ done (
      4,
      record (nci_in rfst_idle []) { rx_buf = received map_rsp (nci_in rfst_idle []).rx_buf },
      ([], []),
    )
wait_for_event-Transfer_example =
    wait_for_event-Transfer serial 2 4 40 serial_fifo 1 map_rsp (nci_in rfst_idle []) on_wire
      (0 ∷ [], []) ([], [])
      (record { byte0 = omega arith; byte1 = omega arith; first = omega arith; size = omega arith })
      (omega arith, tt) (record { up = on_wire; raised = high refl; received = refl; after = refl })
      (record { up = (0 ∷ [], []); raised = high refl; received = refl; after = refl })
