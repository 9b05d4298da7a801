-- ===== src/Examples.antt =====
-- The theorems at concrete inputs: a scripted controller, and objects of each layer.
mod Controller
mod Logging
mod Driver
mod Header
mod Packets
mod Events
mod Runs
mod Tags
mod Served
mod Activations
mod Sketches
mod Cycle
mod Interrupted
mod Failures
use arduino_nfc.Common.{ℕ, zero, suc, ◌%◌, Bool, true, List, [], ◌∷◌, Option, none, some, get_elem?}
use arduino_nfc.Common.Outcome.{done}
use arduino_nfc.Common.Buffer.{Buf}
use arduino_nfc.Hw.{NfcHw}
use arduino_nfc.Common.{length}
use arduino_nfc.Nci.Types.{
  NfcNci, NciState, DataPtr, null, RfIntf, state_none, rfst_reset, rfst_idle, rfst_discovery,
  rfst_poll_active,
}
use arduino_nfc.Nci.Session.{construct}
use arduino_nfc.Tags.Types.{
  NfcTags, TagsState, TagIntf, no_tag, to_tag2, Type2, Type2State, t2_none,
}

-- The next bytes of a script, and 0 after its end.
abbrev pub next_bytes : ℕ → List ℕ → List ℕ
next_bytes zero w = []
next_bytes (suc n) [] = 0 ∷ next_bytes n []
next_bytes (suc n) (x ∷ xs) = x % 256 ∷ next_bytes n xs

abbrev pub skip_bytes : ℕ → List ℕ → List ℕ
skip_bytes zero w = w
skip_bytes (suc n) [] = []
skip_bytes (suc n) (x ∷ xs) = skip_bytes n xs

-- A controller that takes every packet and answers with the bytes of a script.
abbrev pub scripted : NfcHw
scripted = record {
  World = List ℕ;
  write = λ bytes w. (length bytes, w);
  read = λ n w. done (next_bytes n w, n % 256, skip_bytes n w);
}

abbrev pub buf_of : List ℕ → Buf
buf_of [] i = 0
buf_of (x ∷ xs) zero = x
buf_of (x ∷ xs) (suc i) = buf_of xs i

abbrev pub no_intf : RfIntf
no_intf = record {
  id = 0;
  interface = 0;
  protocol = 0;
  activation_mode = 0;
  max_payload_size = 0;
  credits = 0;
  specific_type = 0;
  poll_a = record {
    sens_res0 = 0;
    sens_res1 = 0;
    nfcid_len = 0;
    nfcid = buf_of [];
    sel_res_len = 0;
    sel_res = 0;
  };
  exchange_mode = 0;
  tx_bitrate = 0;
  rx_bitrate = 0;
}

-- An object of the NCI layer in a state, with a packet in its receive buffer.
abbrev pub nci_in : NciState → List ℕ → NfcNci
nci_in s packet = record {
  registered = true;
  rx_buf = buf_of packet;
  tx_buf = buf_of [];
  state = s;
  data_ptr = null;
  reset = record { version = 0; status = 0 };
  rf_intf = no_intf;
  deactivate = record { type = 0; reason = 0 };
}

abbrev pub type2_in : Type2State → ℕ → Type2
type2_in s block = record {
  state = s;
  id = 1;
  registered = true;
  rf = null;
  dump = record { buf = null; len = 0; more = 0 };
  block = block;
}

-- An object of the tag API.
abbrev pub tags_in : TagsState → ℕ → TagIntf → Type2 → NfcTags
tags_in s id intf t2 = record {
  state = s;
  id = id;
  registered = true;
  nci_rsp = record { data_ptr = null; id = 0; status = 0 };
  tag2 = t2;
  mifare = record { rf = null };
  intf = intf;
}
