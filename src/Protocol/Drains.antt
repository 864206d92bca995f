-- ===== src/Protocol/Drains.antt =====
-- The receive loop of src/protocol.rs does with the bytes what the frame format says of them.
use sockudo_ws.Base.{
  Bool, Option, none, some, List, [], ◌++◌, Bytes, Outcome, ok, err, ◌≡◌, refl, sym, ap, ◌∙◌, arith,
}
use mathlib.Core.Path.{subst}
use mathlib.Core.List.{append-nil}
use sockudo_ws.Error.{Error}
use sockudo_ws.Parser.Types.{FrameParser, reset}
use sockudo_ws.Parser.Spec.{Decoded, need, failed, crashed, got, meaning}
use sockudo_ws.Parser.Resume.{Inv, AgreesAt}
use sockudo_ws.Parser.Grow.{Extends, meaning-Extends}
use sockudo_ws.Protocol.Types.{RawMessage, Protocol}
use sockudo_ws.Protocol.Raw.{Processed}
use sockudo_ws.Protocol.Loop.{Drained}
use sockudo_ws.Protocol.Reads.{core, Reads, waits, fails}
use sockudo_ws.Protocol.Moves.{Returns}

-- The loop's invariant: that of the parser with the buffer, and the parser has no frame or error
-- without another byte.
abbrev pub Waiting : FrameParser → Bytes → Type 0
Waiting q b = Inv q b × (meaning q [] ≡ need)

abbrev pub behind : List RawMessage → Processed → Processed
behind extra (o, p, messages) = (o, p, extra ++ messages)

module _ (validate_utf8 : Bytes → Bool) where
  abbrev pub Reading : Protocol → Bytes → Processed → Type 0
  Reading p b t = Reads validate_utf8 (core p) (meaning p.parser b) t

  -- After `extra`, what the bytes `b` and any more say goes on as what `p'` and `b'` with them say.
  abbrev pub Continues :
      Outcome Error (Unit {0}) → Protocol → Bytes → List RawMessage → Protocol → Bytes → Type 0
  Continues (ok u) p b extra p' b' =
      Waiting p'.parser b'
      × (reset p'.parser ≡ reset p.parser)
      × ((x : Bytes) (t : Processed) → Reading p' (b' ++ x) t → Reading p (b ++ x) (behind extra t))
  Continues _ p b extra p' b' = Unit

  pub record Ran (p : Protocol) (b : Bytes) (messages : List RawMessage) (out : Drained)
      : Type 0 where
    pub extra : List RawMessage
    pub messages_are : out.3 ≡ messages ++ extra
    pub reads : Reading p b (out.0, record out.1 { parser = reset p.parser }, extra)
    pub returns : Returns out.0
    pub goes_on : Continues out.0 p b extra out.1 out.2

  -- The loop has ended, and has done what the bytes say.
  abbrev pub Ends : Protocol → Bytes → List RawMessage → Option Drained → Type 0
  Ends p b messages r = (out : Drained) × (r ≡ some out) × Ran p b messages out

  pub no_bytes :
      (p : Protocol) (messages : List RawMessage)
      → Waiting p.parser []
      → Ends p [] messages (some (ok tt, p, [], messages))
  no_bytes p messages w = (
    (ok tt, p, [], messages),
    refl,
    record {
      extra = [];
      messages_are = sym (append-nil messages);
      reads = subst (λ d. Reads validate_utf8 (core p) d (ok tt, core p, [])) (sym w.1) waits;
      returns = tt;
      goes_on = (w, refl, λ x t h. h);
    },
  )

  same_core :
      (p : Protocol) (q : FrameParser)
      → reset q ≡ reset p.parser
      → core (record p { parser = q }) ≡ core p
  same_core p q e = ap (λ z. record p { parser = z }) e

  -- What waits for more bytes waits without them.
  waits_now : (d e : Decoded) (x : Bytes) → Extends d x e → e ≡ need → d ≡ need
  waits_now need e x h n = refl
  waits_now (failed a) e x h n = absurd (ground (arith, h, n))
  waits_now crashed e x h n = absurd (ground (arith, h, n))
  waits_now (got f r) e x h n = absurd (ground (arith, h, n))

  pub stops :
      (p : Protocol) (b : Bytes) (messages : List RawMessage) (q : FrameParser) (b' : Bytes)
      → AgreesAt p.parser b (ok none, q, b')
      → Ends p b messages (some (ok tt, record p { parser = q }, b', messages))
  stops p b messages q b' (m, i, c, s) = (
    (ok tt, record p { parser = q }, b', messages),
    refl,
    record {
      extra = [];
      messages_are = sym (append-nil messages);
      reads = subst (λ d. Reads validate_utf8 (core p) d (ok tt, core p, [])) (sym m) waits;
      returns = tt;
      goes_on = (
        (
          i,
          waits_now (meaning q []) (meaning q b') b' (meaning-Extends q [] b') (
              ap (meaning q) (sym (append-nil b'))
              ∙ s []
              ∙ ap (meaning p.parser) (append-nil b)
              ∙ m),
        ),
        c,
        λ x t h.
            subst (λ z. Reads validate_utf8 z (meaning p.parser (b ++ x)) t) (same_core p q c)
              (subst (λ d. Reads validate_utf8 (core (record p { parser = q })) d t) (s x) h),
      );
    },
  )

  pub fails_so :
      (p : Protocol) (b : Bytes) (messages : List RawMessage) (e : Error) (q : FrameParser)
      (b' : Bytes)
      → meaning p.parser b ≡ failed e
      → Ends p b messages (some (err e, record p { parser = q }, b', messages))
  fails_so p b messages e q b' m = (
    (err e, record p { parser = q }, b', messages),
    refl,
    record {
      extra = [];
      messages_are = sym (append-nil messages);
      reads = subst (λ d. Reads validate_utf8 (core p) d (err e, core p, [])) (sym m) fails;
      returns = tt;
      goes_on = tt;
    },
  )
