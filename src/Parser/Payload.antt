-- ===== src/Parser/Payload.antt =====
-- The Payload arm of `parse_slow`: the payload is unmasked as it arrives, at the right position of
-- the mask.
use sockudo_ws.Base.{
  ℕ, ◌-◌, ◌<◌, ◌≤◌, ltb, Bool-cases, le_of_ltb-false, ltb→lt, lt→ltb, le→ltb_false, if◌then◌else◌,
  Option, none, some, ◌++◌, length, take, drop, Bytes, ◌≡◌, refl, sym, ap, ◌∙◌, arith, inl, inr,
  length-append, length-take, length-drop, take-append, drop-append, take-append_ge, drop-append_ge,
  take-length-append, drop-length-append, take_all, drop_all, panic,
}
use mathlib.Core.Path.{ap₂, subst}
use mathlib.Core.List.{append_assoc, append-nil}
use sockudo_ws.Mask.{MaskKey, mask_from}
use sockudo_ws.Mask.Laws.{mask_from-append, length-mask_from}
use sockudo_ws.Mask.Apply.{apply_mask_offset-mask_from}
use sockudo_ws.Frame.{FrameHeader}
use sockudo_ws.Parser.Types.{ParseState, FrameParser}
use sockudo_ws.Parser.Slow.{unmask_tail, unmask_payload, payload_with, with_header, parse_payload}
use sockudo_ws.Parser.Spec.{
  need, got, unmask_from, decode_payload, meaning, meaning_in, meaning_with,
}
use sockudo_ws.Parser.Resume.{AgreesAt, Inv, InvIn}

pub unmask_tail_lem :
    (m : Option MaskKey) (ready : ℕ) (b : Bytes) → unmask_tail m ready b ≡ unmask_from m ready b
unfolding unmask_tail
unmask_tail_lem none ready b = refl
unmask_tail_lem (some k) ready b =
    ap (◌++◌ (take ready b)) (apply_mask_offset-mask_from 0 (drop ready b) k ready)

pub length-unmask_from :
    (m : Option MaskKey) (ready : ℕ) (b : Bytes) → length (unmask_from m ready b) ≡ length b
length-unmask_from none ready b = refl
length-unmask_from (some k) ready b = omega (
  arith,
  length-append (take ready b) (mask_from k ready (drop ready b)),
  length-mask_from k ready (drop ready b),
  length-take ready b,
  length-drop ready b,
)

length-unmask_tail :
    (m : Option MaskKey) (ready : ℕ) (b : Bytes) → length (unmask_tail m ready b) ≡ length b
length-unmask_tail m ready b = rw (unmask_tail_lem m ready b) (length-unmask_from m ready b)

-- Unmasking goes on where it stopped.
unmask_from-append :
    (m : Option MaskKey) (ready : ℕ) (b e : Bytes)
    → ready ≤ length b
    → unmask_from m (length b) (unmask_from m ready b ++ e) ≡ unmask_from m ready (b ++ e)
unmask_from-append none ready b e h = refl
unmask_from-append (some k) ready b e h =
    let done : length (unmask_from (some k) ready b) ≡ length b =
      length-unmask_from (some k) ready b in
    ap₂ (λ x y. x ++ mask_from k (length b) y)
      (rw (← done) (take-length-append (unmask_from (some k) ready b) e))
      (rw (← done) (drop-length-append (unmask_from (some k) ready b) e))
    ∙ append_assoc (take ready b) (mask_from k ready (drop ready b)) (mask_from k (length b) e)
    ∙ ap₂ ◌++◌ (sym (take-append ready b e h)) (
        ap (λ i. mask_from k ready (drop ready b) ++ mask_from k i e)
          (omega (arith, length-drop ready b))
        ∙ sym (mask_from-append k ready (drop ready b) e)
        ∙ ap (mask_from k ready) (sym (drop-append ready b e h)))

-- So does the decoder of the payload.
decode_payload-resume :
    (h : FrameHeader) (ready : ℕ) (b x : Bytes)
    → ready ≤ length b
    → length b ≤ h.payload_len
    → decode_payload h (length b) (unmask_tail h.mask ready b ++ x)
      ≡ decode_payload h ready (b ++ x)
unfolding decode_payload
decode_payload-resume h ready b x r l = rw (unmask_tail_lem h.mask ready b) (λ i.
    if ltb (same_length i) h.payload_len
    then need
    else got (record { header = h; payload = same_payload i }) (same_rest i))
  where
    done : Bytes
    done = unmask_from h.mask ready b

    as_long : length done ≡ length b
    as_long = length-unmask_from h.mask ready b

    same_length : length (done ++ x) ≡ length (b ++ x)
    same_length = omega (arith, length-append done x, length-append b x, as_long)

    same_rest : drop h.payload_len (done ++ x) ≡ drop h.payload_len (b ++ x)
    same_rest =
        drop-append_ge h.payload_len done x (omega (arith, as_long))
        ∙ ap (λ n. drop (h.payload_len - n) x) as_long
        ∙ sym (drop-append_ge h.payload_len b x l)

    same_payload :
        unmask_from h.mask (length b) (take h.payload_len (done ++ x))
        ≡ unmask_from h.mask ready (take h.payload_len (b ++ x))
    same_payload =
        ap (unmask_from h.mask (length b)) (
          take-append_ge h.payload_len done x (omega (arith, as_long))
          ∙ ap (λ n. done ++ take (h.payload_len - n) x) as_long)
        ∙ unmask_from-append h.mask ready b (take (h.payload_len - length b) x) r
        ∙ ap (unmask_from h.mask ready) (sym (take-append_ge h.payload_len b x l))

decode_payload-short :
    (h : FrameHeader) (ready : ℕ) (b : Bytes)
    → length b < h.payload_len
    → decode_payload h ready b ≡ need
unfolding decode_payload
decode_payload-short h ready b l = rw (lt→ltb _ _ l)

unmask_payload_lem :
    (m : Option MaskKey) (ready len : ℕ) (w : Bytes)
    → length w ≤ len
    → unmask_payload m ready len w ≡ unmask_from m ready w
unfolding unmask_payload
unmask_payload_lem none ready len w h = ground (arith, unmask_tail_lem none ready w)
unmask_payload_lem (some k) ready len w h = elim (Bool-cases (ltb ready len)) [
  | inl more ↦ rw more (unmask_tail_lem (some k) ready w)
  | inr all ↦ rw all (
      sym (append-nil w)
      ∙ ap₂ (λ x y. x ++ mask_from k ready y)
          (sym (take_all ready w (omega (arith, le_of_ltb-false _ _ all))))
          (sym (drop_all ready w (omega (arith, le_of_ltb-false _ _ all)))))
]

decode_payload_full :
    (h : FrameHeader) (ready : ℕ) (b : Bytes)
    → h.payload_len ≤ length b
    → decode_payload h ready b
      ≡ got
          (record {
            header = h;
            payload = unmask_payload h.mask ready h.payload_len (take h.payload_len b);
          })
          (drop h.payload_len b)
unfolding decode_payload
decode_payload_full h ready b l = rw (le→ltb_false _ _ l) (
    ap (λ (y : Bytes). got (record { header = h; payload = y }) (drop h.payload_len b))
      (sym (
        unmask_payload_lem h.mask ready h.payload_len (take h.payload_len b)
          (omega (arith, length-take h.payload_len b)))))

pub meaning_payload :
    (p : FrameParser) (h : FrameHeader) (x : Bytes)
    → p.state ≡ ParseState.payload
    → p.header ≡ some h
    → meaning p x ≡ decode_payload h p.payload_ready x
meaning_payload p h x st hd = ap (λ s. meaning_in s p x) st ∙ ap (λ m. meaning_with m p x) hd

pub Inv-payload :
    (p : FrameParser) (h : FrameHeader) (b : Bytes)
    → p.state ≡ ParseState.payload
    → p.header ≡ some h
    → p.payload_ready ≤ length b
    → Inv p b
Inv-payload p h b st hd r =
    subst (λ s. InvIn s p b) (sym st) (record { h = h; header_is = hd; ready_le = r })

-- In the state Payload the call agrees with the format.
pub payload_with-Agrees :
    (p : FrameParser) (h : FrameHeader) (b : Bytes)
    → p.state ≡ ParseState.payload
    → p.header ≡ some h
    → p.payload_ready ≤ length b
    → AgreesAt p b (payload_with h p b)
unfolding payload_with
payload_with-Agrees p h b st hd r = elim (Bool-cases (ltb (length b) h.payload_len)) [
  | inl short ↦ elim (Bool-cases (ltb p.payload_ready (length b))) [
    | inl more ↦
        rw (short, more)
          (
            meaning_payload p h b st hd
                ∙ decode_payload-short h p.payload_ready b (ltb→lt _ _ short),
            Inv-payload (record p { payload_ready = length b }) h _ st hd
                (omega (arith, length-unmask_tail h.mask p.payload_ready b)),
            refl,
            λ x.
                meaning_payload (record p { payload_ready = length b }) h _ st hd
                ∙ decode_payload-resume h p.payload_ready b x r (omega (arith, ltb→lt _ _ short))
                ∙ sym (meaning_payload p h _ st hd),
          )
    | inr same ↦
        rw (short, same)
          (
            meaning_payload p h b st hd
                ∙ decode_payload-short h p.payload_ready b (ltb→lt _ _ short),
            Inv-payload p h b st hd r,
            refl,
            λ x. refl,
          )
  ]
  | inr full ↦ rw full (
    meaning_payload p h b st hd
        ∙ decode_payload_full h p.payload_ready b (le_of_ltb-false _ _ full),
    refl,
    refl,
    refl,
  )
]

pub parse_payload-Agrees :
    (p : FrameParser) (h : FrameHeader) (b : Bytes)
    → p.state ≡ ParseState.payload
    → p.header ≡ some h
    → p.payload_ready ≤ length b
    → AgreesAt p b (parse_payload p b)
unfolding parse_payload
parse_payload-Agrees p h b st hd r =
    subst (λ m. AgreesAt p b (with_header m (panic, p, b) (λ g. payload_with g p b))) (sym hd)
      (payload_with-Agrees p h b st hd r)
