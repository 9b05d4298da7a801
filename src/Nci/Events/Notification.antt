-- ===== src/Nci/Events/Notification.antt =====
-- The format of the notification RF_INTF_ACTIVATED that `ntfRfIntfActivated` of src/nci/NfcNci.cpp
-- parses, for a tag in mode A, and what is to be known of it afterwards.
use arduino_nfc.Common.{
  ℕ, ◌+◌, ◌≡◌, refl, ◌==◌, if◌then◌else◌, Option, none, some, List, [], ◌∷◌, ◌++◌, length, arith,
}
use arduino_nfc.Common.Buffer.{Buf, slice}
use arduino_nfc.Nci.Types.{RfIntf, ParamsPa}

-- What the notification announces: the interface, the tag's identifier, and its SEL_RES if it has one.
pub record Announced : Type 0 where
  pub id : ℕ
  pub interface : ℕ
  pub protocol : ℕ
  pub max_payload_size : ℕ
  pub credits : ℕ
  pub sens_res0 : ℕ
  pub sens_res1 : ℕ
  pub nfcid : List ℕ
  pub sel_res : Option ℕ
  pub exchange_mode : ℕ
  pub tx_bitrate : ℕ
  pub rx_bitrate : ℕ

abbrev pub sel_bytes : Option ℕ → List ℕ
sel_bytes none = 0 ∷ []
sel_bytes (some r) = 1 ∷ r ∷ []

abbrev pub tech_bytes : Announced → List ℕ
tech_bytes a = a.sens_res0 ∷ a.sens_res1 ∷ length a.nfcid ∷ (a.nfcid ++ sel_bytes a.sel_res)

abbrev pub closing : Announced → List ℕ
closing a = a.exchange_mode ∷ a.tx_bitrate ∷ a.rx_bitrate ∷ 0 ∷ []

-- The payload of the notification, in the NCI format, with no activation parameters.
unfoldable pub encode : Announced → List ℕ
encode a =
    a.id
    ∷ a.interface
    ∷ a.protocol
    ∷ 0
    ∷ a.max_payload_size
    ∷ a.credits
    ∷ length (tech_bytes a)
    ∷ (tech_bytes a ++ closing a)

-- The bytes stand in the buffer from an index on.
abbrev pub StandAt : Buf → ℕ → List ℕ → Type 0
StandAt b p [] = Unit {0}
StandAt b p (x ∷ xs) = (b p ≡ x) × StandAt b (p + 1) xs

pub StandAt-append :
    (b : Buf) (p q : ℕ) (xs ys : List ℕ)
    → q ≡ p + length xs
    → StandAt b p (xs ++ ys)
    → StandAt b p xs × StandAt b q ys
StandAt-append b p q [] ys e h = let e' : q ≡ p = omega arith in (tt, rw e' h)
StandAt-append b p q (x ∷ xs) ys e h =
    let (l, r) = StandAt-append b (p + 1) q xs ys (omega arith) h.1 in ((h.0, l), r)

pub slice_standing : (b : Buf) (p : ℕ) (xs : List ℕ) → StandAt b p xs → slice b p (length xs) ≡ xs
slice_standing b p [] h = refl
slice_standing b p (x ∷ xs) h = rw (h.0, slice_standing b (p + 1) xs h.1)

pub StandAt-slice : (b : Buf) (p : ℕ) (xs : List ℕ) → slice b p (length xs) ≡ xs → StandAt b p xs
StandAt-slice b p [] h = tt
StandAt-slice b p (x ∷ xs) h = (ground arith, StandAt-slice b (p + 1) xs (ground arith))

-- The SEL_RES is there when its length is 1.
abbrev pub sel_res_of : ParamsPa → Option ℕ
sel_res_of pa = if pa.sel_res_len == 1 then some pa.sel_res else none

-- The interface that the code keeps is the one announced.
pub record Describes (a : Announced) (rf : RfIntf) : Type 0 where
  pub id : rf.id ≡ a.id
  pub interface : rf.interface ≡ a.interface
  pub protocol : rf.protocol ≡ a.protocol
  pub max_payload_size : rf.max_payload_size ≡ a.max_payload_size
  pub credits : rf.credits ≡ a.credits
  pub activation_mode : rf.activation_mode ≡ 0
  pub specific_type : rf.specific_type ≡ 0
  pub sens_res0 : rf.poll_a.sens_res0 ≡ a.sens_res0
  pub sens_res1 : rf.poll_a.sens_res1 ≡ a.sens_res1
  pub nfcid_len : rf.poll_a.nfcid_len ≡ length a.nfcid
  pub nfcid : slice rf.poll_a.nfcid 0 (length a.nfcid) ≡ a.nfcid
  pub sel_res : sel_res_of rf.poll_a ≡ a.sel_res
  pub exchange_mode : rf.exchange_mode ≡ a.exchange_mode
  pub tx_bitrate : rf.tx_bitrate ≡ a.tx_bitrate
  pub rx_bitrate : rf.rx_bitrate ≡ a.rx_bitrate
