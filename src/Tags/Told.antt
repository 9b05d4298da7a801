-- ===== src/Tags/Told.antt =====
-- src/tags/NfcTags.cpp: what a call of the application is to say of the tag API, with the steps that the
-- callbacks share.
use arduino_nfc.Common.{
  ℕ, ◌≡◌, ◌≢◌, ◌⊎◌, inl, inr, refl, if_rule, ◌==◌, ltb, Bool, true, Option, none, some, arith,
}
use arduino_nfc.Common.Outcome.{Outcome, done, ◌>>=◌, Returns, Returns-bind, Returns-seq}
use arduino_nfc.Nci.Types.{RfIntf, NfcNci, DataPtr, status_ok}
use arduino_nfc.Tags.Types.{
  NfcTags, TagsState, AppCall, AppCallback, Dump, Type2, t2_none, TagIntf, no_tag, to_tag2,
  to_mifare, dumping, init_done, discover_ntf, discover_activated, deactivate_ntf, cb_dump,
  cb_reset, cb_discover, cb_discover_ntf, cb_deactivate, tags_id_discover, tags_id_dump,
  tags_status_ok, translate_nci_status, translate_intf_status,
}
use arduino_nfc.Tags.Type2
use arduino_nfc.Tags.Stack.{Called, identify_tag, rf_intf_at, choose, classify, set_nci_response}
use arduino_nfc.Tags.Callbacks.{goes_to, succeeds, settled, tell}
use arduino_nfc.Tags.Busy.{Sound}

-- The call hands on a dump, and unless more is to come the tag's interface may have ended its own.
pub record HandsOn (c : AppCall) (t : NfcTags) : Type 0 where
  pub registered : t.registered ≡ true
  pub tag_registered : t.tag2.registered ≡ true
  pub settled : t.state ≢ deactivate_ntf
  pub status : c.status ≡ tags_status_ok
  pub id : c.id ≡ tags_id_dump
  pub dump : Dump
  pub given : c.dump ≡ some dump
  pub more : (dump.more ≡ 0) ⊎ (t.tag2.state ≢ t2_none)

abbrev pub MeansOf : AppCallback → AppCall → NfcTags → Type 0
MeansOf cb_reset c t = Sound t × (c.status ≡ tags_status_ok → t.state ≡ init_done)
MeansOf cb_discover c t = Sound t × (c.status ≡ tags_status_ok → t.state ≡ discover_ntf)
MeansOf cb_discover_ntf c t = Sound t × (c.status ≡ tags_status_ok → t.state ≡ discover_activated)
MeansOf cb_deactivate c t = Sound t
MeansOf cb_dump c t = HandsOn c t

-- After a reset the stack is initialised, after a discovery it waits for tags, after a notice of a tag
-- the tag is active, and with a dump a dump goes on or has ended.
abbrev pub Means : Option AppCall → NfcTags → Type 0
Means none t = Sound t
Means (some c) t = MeansOf c.callback c t

abbrev pub Tells : Called → Type 0
Tells = Returns (λ r. Means r.0 r.1)

pub enters-Sound :
    (s : TagsState) (t : NfcTags)
    → s ≢ dumping
    → s ≢ deactivate_ntf
    → Sound t
    → Sound (record t { state = s })
enters-Sound s t h k o = record {
  registered = o.registered;
  tag_registered = o.tag_registered;
  settled = k;
  busy = λ e. absurd (h e);
}

pub set_nci_response-Sound :
    (status id : ℕ) (ptr : DataPtr) (t : NfcTags)
    → Sound t
    → Sound (set_nci_response status id ptr t)
unfolding set_nci_response
set_nci_response-Sound status id ptr t o = record {
  registered = o.registered;
  tag_registered = o.tag_registered;
  settled = o.settled;
  busy = o.busy;
}

pub goes_to-Sound :
    (b : Bool) (s : TagsState) (t : NfcTags)
    → s ≢ dumping
    → s ≢ deactivate_ntf
    → Sound t
    → Sound (goes_to b s t)
goes_to-Sound b s t h k o = if_rule Sound b (λ e. enters-Sound s t h k o) (λ e. o)

-- A call with no data, given what it means.
pub tell-Tells :
    (cb : AppCallback) (status id : ℕ) (t : NfcTags)
    → MeansOf cb (record { callback = cb; status = status; id = id; dump = none }) t
    → Tells (tell cb status id t)
tell-Tells cb status id t m =
    if_rule (λ (r : Outcome (Option AppCall)). Tells (r >>= λ c. done (c, t))) t.registered (λ e. m)
      (λ e. tt)

-- The state of a callback that always calls the application, when it calls it with the status OK.
pub goes_to_settled :
    (status id expected : ℕ) (s : TagsState) (t : NfcTags)
    → settled status id expected ≡ tags_status_ok
    → (goes_to (succeeds status id expected) s t).state ≡ s
unfolding translate_nci_status
goes_to_settled status id expected s t h = ground arith

pub choose-Sound :
    (ptr : DataPtr) (i : Option TagIntf) (t : NfcTags) → Sound t → Sound (choose ptr i t)
unfolding choose
choose-Sound ptr none t o = o
choose-Sound ptr (some no_tag) t o = record {
  registered = o.registered;
  tag_registered = o.tag_registered;
  settled = o.settled;
  busy = o.busy;
}
choose-Sound ptr (some to_tag2) t o = record {
  registered = o.registered;
  tag_registered = o.tag_registered;
  settled = o.settled;
  busy = o.busy;
}
choose-Sound ptr (some to_mifare) t o = record {
  registered = o.registered;
  tag_registered = o.tag_registered;
  settled = o.settled;
  busy = o.busy;
}

pub identify_tag-Sound :
    (ptr : DataPtr) (t : NfcTags) (n : NfcNci) → Sound t → Returns Sound (identify_tag ptr t n)
unfolding identify_tag
identify_tag-Sound ptr t n o = Returns-bind Sound (rf_intf_at ptr n) _ (λ r e. found r)
  where
    found : (r : Option RfIntf) → Sound (elim r [ none ↦ t | some rf ↦ choose ptr (classify rf) t ])
    found none = o
    found (some rf) = choose-Sound ptr (classify rf) t o

-- The message of a dump: either none is under way, or it is handed on.
abbrev pub Handed : Type2 → Option AppCall × Type2 → Type 0
Handed t2 (none, t2') = t2' ≡ t2
Handed t2 (some c, t2') =
    (t2'.registered ≡ t2.registered)
    × (c.callback ≡ cb_dump)
    × (c.status ≡ tags_status_ok)
    × (c.id ≡ tags_id_dump)
    × (d : Dump) × (c.dump ≡ some d)
    × ((d.more ≡ 0) ⊎ (t2'.state ≢ t2_none))

abbrev pub Left : Type2 → Type2 → Type 0
Left t2 t2' = (t2'.registered ≡ t2.registered) × ((t2'.dump.more ≡ 0) ⊎ (t2'.state ≢ t2_none))

pub take_blocks-Left :
    (len : ℕ) (ptr : DataPtr) (t2 : Type2) → Left t2 (Type2.take_blocks len ptr t2)
unfolding Type2.take_blocks
take_blocks-Left len ptr t2 =
    if_rule (Left t2) (ltb t2.block 12) (λ e. (refl, inr (λ k. ground arith)))
      (λ e. (refl, inl refl))

pub handle_data_dump-Handed :
    (ptr : DataPtr) (t2 : Type2) (n : NfcNci)
    → Returns (Handed t2) (Type2.handle_data_dump status_ok ptr t2 n)
unfolding Type2.handle_data_dump Type2.drop_dump translate_intf_status
handle_data_dump-Handed ptr t2 n =
    Returns-bind (Handed t2) (Type2.is_complete tags_status_ok ptr n) _ (λ b e.
      Returns-seq (Left t2) (Handed t2) _ _
        (if_rule (Returns (Left t2)) b
          (λ k.
            Returns-bind (Left t2) (Type2.deref ptr 0 n) _ (λ len f. take_blocks-Left len ptr t2))
          (λ k. (refl, inl refl)))
        (λ t2' l.
          if_rule (λ (r : Outcome (Option AppCall)). Returns (Handed t2) (r >>= λ c. done (c, t2')))
            t2'.registered (λ k. (l.0, refl, refl, refl, t2'.dump, refl, l.1)) (λ k. tt)))

pub handle_data-Handed :
    (ptr : DataPtr) (t2 : Type2) (n : NfcNci)
    → Returns (Handed t2) (Type2.handle_data status_ok ptr t2 n)
unfolding Type2.handle_data
handle_data-Handed ptr t2 n =
    if_rule (Returns (Handed t2)) (t2.id == 1) (λ e. handle_data_dump-Handed ptr t2 n) (λ e. refl)

pub resumes-Sound :
    (t : NfcTags) → Sound t → Sound (record t { id = tags_id_discover; state = discover_ntf })
resumes-Sound t o = record {
  registered = o.registered;
  tag_registered = o.tag_registered;
  settled = ground arith;
  busy = λ k. absurd (ground arith);
}
