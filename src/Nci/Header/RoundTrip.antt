-- ===== src/Nci/Header/RoundTrip.antt =====
-- src/nci/NfcNci.h: the header macros undo one another.
use arduino_nfc.Common.{
  ℕ, ◌↔◌, ◌∙◌, sym, ap, ◌/◌, ◌%◌, ◌<◌, ◌≡◌, refl, Bool, true, ◌&&◌, ◌==◌, passes, passes_at, arith,
}
use arduino_nfc.Nci.Header.{hdr0, hdr1, mt_of, pbf_of, gid_of, oid_of, uint16_id}

-- A table of two indices.
pair_passes : (ℕ → ℕ → Bool) → ℕ → ℕ → Bool
pair_passes test rows columns = passes (λ row. passes (test row) columns) rows

pair_passes_at :
    (test : ℕ → ℕ → Bool) (rows columns : ℕ)
    → pair_passes test rows columns ≡ true
    → (i j : ℕ) → i < rows
    → j < columns
    → test i j ≡ true
unfolding pair_passes
pair_passes_at test rows columns all i j hi hj =
    passes_at (test i) columns (passes_at (λ row. passes (test row) columns) rows all i hi) j hj

abbrev parses : ℕ → ℕ → Bool
parses mt gid = let b = hdr0 mt gid in (mt_of b == mt) && ((pbf_of b == 0) && (gid_of b == gid))

parses_table : pair_passes parses 8 16 ≡ true
unfolding pair_passes passes hdr0 mt_of pbf_of gid_of
parses_table = refl

-- What NCI_MSG_BLD_HDR0 builds from a message type below 8 and a group below 16,
-- NCI_MSG_PRS_HDR0 parses to the same two, with a clear boundary flag.
pub parse-hdr0 :
    (mt gid : ℕ)
    → mt < 8
    → gid < 16
    → (mt_of (hdr0 mt gid) ≡ mt) × (pbf_of (hdr0 mt gid) ≡ 0) × (gid_of (hdr0 mt gid) ≡ gid)
parse-hdr0 mt gid hm hg = ground (arith, pair_passes_at parses 8 16 parses_table mt gid hm hg)

abbrev splits : ℕ → ℕ → Bool
splits mt oid = (uint16_id mt oid / 8192 == mt) && (uint16_id mt oid % 8192 == oid)

splits_table : pair_passes splits 8 64 ≡ true
unfolding pair_passes passes uint16_id
splits_table = refl

-- UINT16_ID keeps a message type below 8 in bits 13 to 15 and an opcode below 64 in the bits under
-- them, so no two pairs share an identifier.
pub uint16_id_fields :
    (mt oid : ℕ)
    → mt < 8
    → oid < 64
    → (uint16_id mt oid / 8192 ≡ mt) × (uint16_id mt oid % 8192 ≡ oid)
uint16_id_fields mt oid hm ho = ground (arith, pair_passes_at splits 8 64 splits_table mt oid hm ho)

abbrev decomposes : ℕ → Bool
decomposes b =
    ((mt_of b == b / 32) && (pbf_of b == b / 16 % 2))
    && ((gid_of b == b % 16) && (oid_of b == b % 64))

decomposes_table : passes decomposes 256 ≡ true
unfolding passes mt_of pbf_of gid_of oid_of
decomposes_table = refl

-- The parsed fields of a byte are its digits: bits 5 to 7, bit 4, bits 0 to 3, and bits 0 to 5.
pub header_fields :
    (b : ℕ)
    → b < 256
    → (mt_of b ≡ b / 32) × (pbf_of b ≡ b / 16 % 2) × (gid_of b ≡ b % 16) × (oid_of b ≡ b % 64)
header_fields b h = ground (arith, passes_at decomposes 256 decomposes_table b h)

-- A header byte with an opcode is parsed to it.
parse-hdr1 : (oid : ℕ) → oid < 64 → oid_of (hdr1 oid) ≡ oid
unfolding hdr1
parse-hdr1 oid h =
    let small : oid % 256 ≡ oid = omega (arith, h) in
    rw small ((header_fields oid (omega (arith, h))).3 ∙ omega (arith, h))

-- The identifier that the NCI layer makes of the header of a message.
abbrev pub message_id : ℕ → ℕ → ℕ → ℕ
message_id mt gid oid = uint16_id (mt_of (hdr0 mt gid)) (oid_of (hdr1 oid))

message_id_parsed :
    (mt gid oid : ℕ) → mt < 8 → gid < 16 → oid < 64 → message_id mt gid oid ≡ uint16_id mt oid
message_id_parsed mt gid oid hm hg ho = rw ((parse-hdr0 mt gid hm hg).0, parse-hdr1 oid ho)

-- For message types below 8, groups below 16 and opcodes below 64: the identifiers that the NCI layer
-- makes of the headers of two messages are equal if, and only if, their types and their opcodes are,
-- whatever their groups.
pub uint16_id_identifies :
    (mt gid oid mt' gid' oid' : ℕ)
    → mt < 8
    → gid < 16
    → oid < 64
    → mt' < 8
    → gid' < 16
    → oid' < 64
    → (message_id mt gid oid ≡ message_id mt' gid' oid') ↔ ((mt ≡ mt') × (oid ≡ oid'))
uint16_id_identifies mt gid oid mt' gid' oid' hm hg ho hm' hg' ho' =
    let e = message_id_parsed mt gid oid hm hg ho in
    let e' = message_id_parsed mt' gid' oid' hm' hg' ho' in
    let f = uint16_id_fields mt oid hm ho in
    let f' = uint16_id_fields mt' oid' hm' ho' in
    (
      λ same.
          let k : uint16_id mt oid ≡ uint16_id mt' oid' = sym e ∙ same ∙ e' in
          (sym f.0 ∙ ap (λ i. i / 8192) k ∙ f'.0, sym f.1 ∙ ap (λ i. i % 8192) k ∙ f'.1),
      λ (m, o). e ∙ rw (m, o) (sym e'),
    )
