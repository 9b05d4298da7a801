-- ===== src/Sketch/Ready.antt =====
-- examples/TagDump/TagDump.ino over src/tags/NfcTags.cpp: what the sketch may rely on in each state.
use arduino_nfc.Common.{
  ℕ, ◌≡◌, ◌≢◌, ◌⊎◌, inl, inr, refl, sym, subst, if_rule, not, ◌==◌, true, Option, none, some, arith,
}
use arduino_nfc.Common.Outcome.{Outcome, done, Returns, Returns-bind}
use arduino_nfc.Nci.Types.{NfcNci}
use arduino_nfc.Tags.Types.{
  NfcTags, init_done, discover_activated, deactivate_ntf, AppCall, AppCallback, Dump, cb_reset,
  cb_discover, cb_discover_ntf, cb_deactivate, cb_dump, t2_none, tags_status_ok, tags_id_reset,
  tags_id_discover, tags_id_discover_activated, tags_id_deactivate, tags_id_dump, tags_type_2,
  TagIntf, no_tag, to_tag2, to_mifare,
}
use arduino_nfc.Tags.Interface.{get_type, intf_get_nfcid_len, intf_get_nfcid_buf}
use arduino_nfc.Tags.Stack.{is_tag}
use arduino_nfc.Tags.Busy.{Sound, IsError}
use arduino_nfc.Tags.Told.{Means}
use arduino_nfc.Sketch.{tell}
use arduino_nfc.Sketch.Dump.{
  DumpState, st_reset, st_reset_response, st_discover, st_discover_response, st_discovering,
  st_dump, st_dump_response, st_deactivate, st_deactivate_response, st_error, st_end, dump_sketch,
  dump_receive, dump_cb_reset, dump_cb_discover, dump_cb_discover_ntf, dump_cb_deactivate,
  dump_cb_dump, is_bad,
}

-- A dump may have ended, of which the sketch is about to tell the tag API.
pub record Closing (t : NfcTags) : Type 0 where
  pub registered : t.registered ≡ true
  pub tag_registered : t.tag2.registered ≡ true
  pub settled : t.state ≢ deactivate_ntf

abbrev pub Ready : DumpState → NfcTags → Type 0
Ready st_discover t = Sound t × (t.state ≡ init_done)
Ready st_dump t = Sound t × (t.state ≡ discover_activated) × (t.intf ≡ to_tag2)
Ready st_deactivate t = Closing t
Ready s t = Sound t

-- The sketch waits for a call.
abbrev pub Waits : DumpState → Type 0
Waits st_reset = ⊥
Waits st_discover = ⊥
Waits st_dump = ⊥
Waits st_deactivate = ⊥
Waits s = Unit

pub Sound-Closing : (t : NfcTags) → Sound t → Closing t
Sound-Closing t s = record {
  registered = s.registered;
  tag_registered = s.tag_registered;
  settled = s.settled;
}

Waits-Ready : (a : DumpState) (t : NfcTags) → Waits a → Sound t → Ready a t
Waits-Ready st_reset t w s = absurd w
Waits-Ready st_discover t w s = absurd w
Waits-Ready st_dump t w s = absurd w
Waits-Ready st_deactivate t w s = absurd w
Waits-Ready st_reset_response t w s = s
Waits-Ready st_discover_response t w s = s
Waits-Ready st_discovering t w s = s
Waits-Ready st_dump_response t w s = s
Waits-Ready st_deactivate_response t w s = s
Waits-Ready st_error t w s = s
Waits-Ready st_end t w s = s

-- The call of an error is an error of the sketch.
abbrev WaitsAfter : Outcome DumpState → Type 0
WaitsAfter = Returns Waits

error-Waits :
    (cb : AppCallback) (status id : ℕ) (d : Option Dump) (a : DumpState) (t : NfcTags) (n : NfcNci)
    → status ≢ tags_status_ok
    → WaitsAfter (dump_receive (record { callback = cb; status = status; id = id; dump = d }) a t n)
unfolding dump_receive dump_cb_reset dump_cb_discover dump_cb_discover_ntf dump_cb_deactivate
    dump_cb_dump
error-Waits cb_reset status id d a t n h = ground arith
error-Waits cb_discover status id d a t n h = ground arith
error-Waits cb_discover_ntf status id d a t n h = ground arith
error-Waits cb_deactivate status id d a t n h = ground arith
error-Waits cb_dump status id none a t n h = tt
error-Waits cb_dump status id (some d) a t n h = ground arith

pub tell_error-Waits :
    (c : Option AppCall) (a : DumpState) (t : NfcTags) (n : NfcNci)
    → IsError c
    → Waits a
    → WaitsAfter (tell dump_sketch c a t n)
unfolding tell
tell_error-Waits none a t n h w = w
tell_error-Waits (some c) a t n h w = error-Waits c.callback c.status c.id c.dump a t n h

-- A call that means what it says leaves the sketch ready.
abbrev ReadyAfter : NfcTags → Outcome DumpState → Type 0
ReadyAfter t = Returns (λ a. Ready a t)

get_type_two :
    (i : TagIntf) (type : ℕ) → get_type i ≡ done type → (type == tags_type_2) ≡ true → i ≡ to_tag2
unfolding get_type
get_type_two no_tag type e h = absurd (ground arith)
get_type_two to_tag2 type e h = refl
get_type_two to_mifare type e h = absurd (ground arith)

discover_ntf-Ready :
    (status id : ℕ) (t : NfcTags) (n : NfcNci)
    → Sound t
    → (status ≡ tags_status_ok → t.state ≡ discover_activated)
    → ReadyAfter t (dump_cb_discover_ntf status id t n)
unfolding dump_cb_discover_ntf
discover_ntf-Ready status id t n s h =
    if_rule (ReadyAfter t) (is_bad status id tags_id_discover_activated) (λ e. s)
      (λ e.
        if_rule (ReadyAfter t) (is_tag t.intf)
          (λ k.
            Returns-bind (λ a. Ready a t) (get_type t.intf) _
              (λ type f.
                Returns-bind (λ a. Ready a t) (intf_get_nfcid_len t n) _
                  (λ len g.
                    Returns-bind (λ a. Ready a t) (intf_get_nfcid_buf t n) _
                      (λ buf g'.
                        if_rule (λ a. Ready a t) (type == tags_type_2)
                          (λ two. (s, h (ground arith), get_type_two t.intf type f two))
                          (λ other. Sound-Closing t s)))))
          (λ k. Sound-Closing t s))

dump-Ready :
    (d : Dump) (t : NfcTags)
    → Closing t
    → (d.more ≡ 0) ⊎ (t.tag2.state ≢ t2_none)
    → Ready (dump_cb_dump tags_status_ok tags_id_dump (some d)) t
unfolding dump_cb_dump
dump-Ready d t c m =
    if_rule (λ a. Ready a t) (not (d.more == 0))
      (λ e. record {
        registered = c.registered;
        tag_registered = c.tag_registered;
        settled = c.settled;
        busy = λ k x. elim m [ inl z ↦ ground arith | inr b ↦ b x ];
      })
      (λ e. c)

receive-Ready :
    (cb : AppCallback) (status id : ℕ) (d : Option Dump) (a : DumpState) (t : NfcTags) (n : NfcNci)
    → Means (some (record { callback = cb; status = status; id = id; dump = d })) t
    → ReadyAfter t
        (dump_receive (record { callback = cb; status = status; id = id; dump = d }) a t n)
unfolding dump_receive dump_cb_reset dump_cb_discover dump_cb_deactivate
receive-Ready cb_reset status id d a t n m =
    if_rule (λ s. Ready s t) (is_bad status id tags_id_reset) (λ e. m.0)
      (λ e. (m.0, m.1 (ground arith)))
receive-Ready cb_discover status id d a t n m =
    if_rule (λ s. Ready s t) (is_bad status id tags_id_discover) (λ e. m.0) (λ e. m.0)
receive-Ready cb_discover_ntf status id d a t n m = discover_ntf-Ready status id t n m.0 m.1
receive-Ready cb_deactivate status id d a t n m =
    if_rule (λ s. Ready s t) (is_bad status id tags_id_deactivate) (λ e. m) (λ e. m)
receive-Ready cb_dump status id d a t n m =
    subst (λ o. Ready (dump_cb_dump status id o) t) (sym m.given)
      (subst (λ k. Ready (dump_cb_dump k id (some m.dump)) t) (sym m.status)
        (subst (λ k. Ready (dump_cb_dump tags_status_ok k (some m.dump)) t) (sym m.id)
          (dump-Ready m.dump t
            (record {
              registered = m.registered;
              tag_registered = m.tag_registered;
              settled = m.settled;
            })
            m.more)))

pub tell-Ready :
    (c : Option AppCall) (a : DumpState) (t : NfcTags) (n : NfcNci)
    → Means c t
    → Waits a
    → ReadyAfter t (tell dump_sketch c a t n)
unfolding tell
tell-Ready none a t n m w = Waits-Ready a t w m
tell-Ready (some c) a t n m w = receive-Ready c.callback c.status c.id c.dump a t n m
