-- ===== src/Protocol/Turns.antt =====
-- The receive loop of src/protocol.rs frame by frame: a frame that is refused, one that is accepted,
-- and the loop over them.
use sockudo_ws.Base.{
  ℕ, zero, suc, ◌<◌, ◌≤◌, Bool, Option, none, some, List, [], ◌∷◌, ◌++◌, length, Bytes, Outcome, ok,
  err, panic, ◌≡◌, refl, sym, ap, ◌∙◌, arith,
}
use mathlib.Core.Path.{subst}
use mathlib.Core.List.{append_assoc, append-nil}
use sockudo_ws.Error.{Error}
use sockudo_ws.Frame.{Frame}
use sockudo_ws.Parser.Types.{ParseState, FrameParser, Parsed, reset}
use sockudo_ws.Parser.Fast.{parse}
use sockudo_ws.Parser.Spec.{got, meaning, meaning_in, decode}
use sockudo_ws.Parser.Resume.{Inv, InvIn, AgreesAt}
use sockudo_ws.Parser.Stream.{parse-Agrees}
use sockudo_ws.Parser.Grow.{Extends, Leaves, meaning-Extends, decode-cons-Leaves}
use sockudo_ws.Protocol.Types.{RawMessage, Protocol, Handled}
use sockudo_ws.Protocol.Raw.{Processed, push_message, pushed, handle_raw_frame}
use sockudo_ws.Protocol.Loop.{Drained, Rest, after_frame, after_parse, raw_loop}
use sockudo_ws.Protocol.Reads.{core, before, Reads, Then, frame, accepted, refused}
use sockudo_ws.Protocol.Moves.{
  moved, Returns, handle_raw_frame-moved, handle_raw_frame-Returns, handle_raw_frame-parser,
}
use sockudo_ws.Protocol.Drains.{
  Waiting, behind, Reading, Continues, Ends, no_bytes, stops, fails_so,
}

module _ (validate_utf8 : Bytes → Bool) where
  pushed_before :
      (m : Option RawMessage) (messages : List RawMessage)
      → push_message m messages ≡ messages ++ push_message m []
  pushed_before none messages = sym (append-nil messages)
  pushed_before (some m) messages = refl

  -- The protocol that handles a frame behind which the parser is `q`.
  abbrev handling : Protocol → FrameParser → Protocol
  handling p q = record p { parser = q; partial_checked = 0 }

  module _ (p : Protocol) (b : Bytes) (messages : List RawMessage) (f : Frame) (q : FrameParser)
      (b' : Bytes) (is_frame : meaning p.parser b ≡ got f b')
      (at_start : q.state ≡ ParseState.header) (fresh : q.payload_ready ≡ 0)
      (limits : reset q ≡ reset p.parser) where
    abbrev core_handles : Handled (Option RawMessage)
    core_handles = handle_raw_frame validate_utf8 (record (core p) { partial_checked = 0 }) f

    core_handled :
        (h : Handled (Option RawMessage))
        → handle_raw_frame validate_utf8 (handling p q) f ≡ h
        → core_handles ≡ moved (reset p.parser) h
    core_handled h e =
        handle_raw_frame-moved (reset p.parser) validate_utf8 (handling p q) f
        ∙ ap (moved (reset p.parser)) e

    -- What comes of the frame, for the bytes that end with it and for those with more behind them.
    leads :
        (h : Handled (Option RawMessage)) (r : Bytes) (x : Bytes) (t : Processed)
        → handle_raw_frame validate_utf8 (handling p q) f ≡ h
        → meaning p.parser x ≡ got f r
        → Then validate_utf8 (moved (reset p.parser) h) r t
        → Reading validate_utf8 p x t
    leads h r x t e m th =
        subst (λ d. Reads validate_utf8 (core p) d t) (sym m)
          (frame (subst (λ z. Then validate_utf8 z r t) (sym (core_handled h e)) th))

    refuses :
        (e : Error) (p2 : Protocol)
        → handle_raw_frame validate_utf8 (handling p q) f ≡ (err e, p2)
        → Ends validate_utf8 p b messages (some (err e, p2, b', messages))
    refuses e p2 h = (
      (err e, p2, b', messages),
      refl,
      record {
        extra = [];
        messages_are = sym (append-nil messages);
        reads =
            leads (err e, p2) b' b (err e, record p2 { parser = reset p.parser }, []) h is_frame
              refused;
        returns = tt;
        goes_on = tt;
      },
    )

    module _ (m : Option RawMessage) (p2 : Protocol)
        (handled : handle_raw_frame validate_utf8 (handling p q) f ≡ (ok m, p2)) where
      kept : p2.parser ≡ q
      kept =
          ap (λ (h : Handled (Option RawMessage)). h.1.parser) (sym handled)
          ∙ handle_raw_frame-parser validate_utf8 (handling p q) f

      limits_kept : reset p2.parser ≡ reset p.parser
      limits_kept = ap reset kept ∙ limits

      next_is : (y : Bytes) → meaning p2.parser y ≡ decode (reset p2.parser) y
      next_is y = ap (λ s. meaning_in s p2.parser y) (ap (λ z. z.state) kept ∙ at_start)

      next-Waiting : Waiting p2.parser b'
      next-Waiting = (
        subst (λ z. Inv z b') (sym kept) (subst (λ s. InvIn s q b') (sym at_start) fresh),
        next_is [],
      )

      restart :
          (y : Bytes) (t : FrameParser → Processed)
          → Reads validate_utf8 (core p2) (meaning p2.parser y) (t (reset p2.parser))
          → Reads validate_utf8
              (record p2 { parser = reset p.parser })
              (decode (reset p.parser) y)
              (t (reset p.parser))
      restart y t h =
          subst (λ a. Reads validate_utf8 (record p2 { parser = a }) (decode a y) (t a)) limits_kept
            (subst (λ d. Reads validate_utf8 (core p2) d (t (reset p2.parser))) (next_is y) h)

      onward :
          (o : Outcome Error (Unit {0})) (extra : List RawMessage) (p' : Protocol) (b'' : Bytes)
          → Continues validate_utf8 o p2 b' extra p' b''
          → Continues validate_utf8 o p b (push_message m [] ++ extra) p' b''
      onward (ok u) extra p' b'' (w, c, g) = (
        w,
        c ∙ limits_kept,
        λ x t h.
            subst (λ ms. Reading validate_utf8 p (b ++ x) (t.0, t.1, ms))
              (sym (append_assoc (push_message m []) extra t.2))
              (leads (ok m, p2) (b' ++ x) (b ++ x) (before m (behind extra t)) handled
                (subst (λ d. Extends d x (meaning p.parser (b ++ x))) is_frame
                  (meaning-Extends p.parser b x))
                (accepted (restart (b' ++ x) (λ _. behind extra t) (g x t h)))),
      )
      onward (err e) extra p' b'' h = tt
      onward panic extra p' b'' h = tt

      accepts :
          (r : Option Drained)
          → Ends validate_utf8 p2 b' (push_message m messages) r
          → Ends validate_utf8 p b messages r
      accepts r (out, is, ran) = (
        out,
        is,
        record {
          extra = push_message m [] ++ ran.extra;
          messages_are =
              ran.messages_are
              ∙ ap (λ ms. ms ++ ran.extra) (pushed_before m messages)
              ∙ append_assoc messages (push_message m []) ran.extra;
          reads =
              leads (ok m, p2) b' b
                (before m (out.0, record out.1 { parser = reset p.parser }, ran.extra)) handled
                is_frame
                (accepted
                  (restart b' (λ a. (out.0, record out.1 { parser = a }, ran.extra)) ran.reads));
          returns = ran.returns;
          goes_on = onward out.0 ran.extra out.1 out.2 ran.goes_on;
        },
      )

  -- Fuel for the frames that the bytes can hold: behind the first one at most as many bytes are left.
  abbrev pub Enough : ℕ → Protocol → Bytes → Type 0
  Enough fuel p [] = Unit
  Enough fuel p (c ∷ w) = (n : ℕ) × Leaves (meaning p.parser (c ∷ w)) n × (n < fuel)

  decode-Enough :
      (fuel n : ℕ) (p : Protocol) (b : Bytes)
      → ((y : Bytes) → meaning p.parser y ≡ decode (reset p.parser) y)
      → length b ≤ n
      → n ≤ fuel
      → Enough fuel p b
  decode-Enough fuel n p [] s l k = tt
  decode-Enough fuel n p (c ∷ w) s l k = (
    length w,
    subst (λ d. Leaves d (length w)) (sym (s (c ∷ w))) (decode-cons-Leaves (reset p.parser) c w),
    omega (arith, l, k),
  )

  module _ (rest : Rest) (fuel : ℕ)
      (next : (p : Protocol) (b : Bytes) (messages : List RawMessage)
        → Waiting p.parser b
        → Enough fuel p b
        → Ends validate_utf8 p b messages (rest p b messages)) where
    framed :
        (p : Protocol) (b : Bytes) (messages : List RawMessage) (f : Frame) (q : FrameParser)
        (b' : Bytes) (h : Handled (Option RawMessage))
        → AgreesAt p.parser b (ok (some f), q, b')
        → length b' ≤ fuel
        → handle_raw_frame validate_utf8 (handling p q) f ≡ h
        → Returns h.0
        → Ends validate_utf8 p b messages (after_frame rest b' (pushed h messages))
    framed p b messages f q b' (ok m, p2) (i, s, z, c) l e n =
        accepts p b messages f q b' i s z c m p2 e (rest p2 b' (push_message m messages)) (
          next p2 b' (push_message m messages) (next-Waiting p b messages f q b' i s z c m p2 e) (
            decode-Enough fuel fuel p2 b' (next_is p b messages f q b' i s z c m p2 e) l
              (omega arith)))
    framed p b messages f q b' (err x, p2) (i, s, z, c) l e n =
        refuses p b messages f q b' i s z c x p2 e
    framed p b messages f q b' (panic, p2) a l e n = absurd n

    parsed :
        (p : Protocol) (b : Bytes) (messages : List RawMessage) (n : ℕ) (r : Parsed)
        → AgreesAt p.parser b r
        → Leaves (meaning p.parser b) n
        → n ≤ fuel
        → Ends validate_utf8 p b messages (after_parse validate_utf8 rest p r messages)
    parsed p b messages n (ok none, q, b') a v l = stops validate_utf8 p b messages q b' a
    parsed p b messages n (ok (some f), q, b') a v l =
        let left : length b' ≤ n = subst (λ d. Leaves d n) a.0 v in
        framed p b messages f q b' (handle_raw_frame validate_utf8 (handling p q) f) a
          (omega (arith, left, l)) refl (handle_raw_frame-Returns validate_utf8 (handling p q) f)
    parsed p b messages n (err e, q, b') a v l = fails_so validate_utf8 p b messages e q b' a
    parsed p b messages n (panic, q, b') a v l = absurd a

  pub raw_loop-Ends :
      (fuel : ℕ) (p : Protocol) (b : Bytes) (messages : List RawMessage)
      → Waiting p.parser b
      → Enough fuel p b
      → Ends validate_utf8 p b messages (raw_loop validate_utf8 fuel p b messages)
  raw_loop-Ends fuel p [] messages w e = no_bytes validate_utf8 p messages w
  raw_loop-Ends zero p (c ∷ b) messages w (n, v, l) = absurd (omega (arith, l))
  raw_loop-Ends (suc fuel) p (c ∷ b) messages w (n, v, l) =
      parsed (raw_loop validate_utf8 fuel) fuel (raw_loop-Ends fuel) p (c ∷ b) messages n
        (parse p.parser (c ∷ b)) (parse-Agrees p.parser (c ∷ b) w.0) v (omega (arith, l))
