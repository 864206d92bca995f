-- ===== src/Protocol/Reads.antt =====
-- What raw processing is to do with the bytes of a connection, as a relation on the frame format: with
-- no parser state, no buffer and no loop.
use sockudo_ws.Base.{Bool, Option, [], ◌++◌, Bytes, ok, err, ◌≡◌, refl, ap}
use sockudo_ws.Error.{Error}
use sockudo_ws.Frame.{Frame}
use sockudo_ws.Parser.Types.{reset}
use sockudo_ws.Parser.Spec.{Decoded, need, failed, got, decode}
use sockudo_ws.Protocol.Types.{RawMessage, Protocol, Handled}
use sockudo_ws.Protocol.Raw.{Processed, push_message, handle_raw_frame}

-- A protocol with its parser back at the start of a frame: all of it but what the parser has stored.
abbrev pub core : Protocol → Protocol
core p = record p { parser = reset p.parser }

-- The message of a frame, where it completes one, before the messages that follow.
abbrev pub before : Option RawMessage → Processed → Processed
before m (o, p, messages) = (o, p, push_message m [] ++ messages)

module _ (validate_utf8 : Bytes → Bool) where
  mutual
    -- From the protocol `c`, bytes that read as the index say lead to a result, a protocol and messages.
    pub data Reads : Protocol → Decoded → Processed → Type 0 where
      waits : {c : Protocol} → Reads c need (ok tt, c, [])
      fails : {c : Protocol} {e : Error} → Reads c (failed e) (err e, c, [])
      frame :
          {c : Protocol} {f : Frame} {r : Bytes} {out : Processed}
          → Then (handle_raw_frame validate_utf8 (record c { partial_checked = 0 }) f) r out
          → Reads c (got f r) out

    -- A frame that is accepted is followed by what the bytes behind it say, one that is refused by nothing.
    pub data Then : Handled (Option RawMessage) → Bytes → Processed → Type 0 where
      accepted :
          {c : Protocol} {m : Option RawMessage} {r : Bytes} {out : Processed}
          → Reads c (decode c.parser r) out
          → Then (ok m, c) r (before m out)
      refused : {c : Protocol} {e : Error} {r : Bytes} → Then (err e, c) r (err e, c, [])

  mutual
    pub Reads-unique :
        (c : Protocol) (d : Decoded) (s t : Processed) → Reads c d s → Reads c d t → s ≡ t
    Reads-unique c _ _ _ waits waits = refl
    Reads-unique c _ _ _ fails fails = refl
    Reads-unique c _ s t (frame {f = f} {r = r} x) (frame y) =
        Then-unique (handle_raw_frame validate_utf8 (record c { partial_checked = 0 }) f) r s t x y

    Then-unique :
        (h : Handled (Option RawMessage)) (r : Bytes) (s t : Processed)
        → Then h r s
        → Then h r t
        → s ≡ t
    Then-unique _ r _ _ (accepted {c = c} {m = m} {out = out} x) (accepted {out = out2} y) =
        ap (before m) (Reads-unique c (decode c.parser r) out out2 x y)
    Then-unique _ r _ _ refused refused = refl
