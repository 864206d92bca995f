-- ===== src/Protocol/Chunks.antt =====
-- `process_raw_into` of src/protocol.rs: it ends, it does what the frame format says of the bytes, and
-- the chunks in which the bytes arrive make no difference to the messages.
use sockudo_ws.Base.{
  ℕ, suc, ◌+◌, Bool, some, List, [], ◌∷◌, ◌++◌, length, Bytes, Outcome, ok, err, panic, ◌≡◌, ◌≢◌,
  refl, sym, ap, ◌∙◌, arith,
}
use mathlib.Core.Path.{subst}
use mathlib.Core.Option.{some-injective}
use sockudo_ws.Parser.Types.{FrameParser, reset}
use sockudo_ws.Parser.Spec.{meaning}
use sockudo_ws.Parser.Stream.{InvIn-append}
use sockudo_ws.Parser.Grow.{meaning-Leaves}
use sockudo_ws.Protocol.Types.{RawMessage, Role, Protocol, protocol_new}
use sockudo_ws.Protocol.Raw.{Processed}
use sockudo_ws.Protocol.Loop.{Drained, process_raw_into}
use sockudo_ws.Protocol.Reads.{core, Reads, Reads-unique}
use sockudo_ws.Protocol.Moves.{Returns}
use sockudo_ws.Protocol.Drains.{Waiting, Ran, Ends}
use sockudo_ws.Protocol.Turns.{Enough, raw_loop-Ends}

module _ (validate_utf8 : Bytes → Bool) where
  enough :
      (p : Protocol) (b : Bytes)
      → Enough validate_utf8 (suc (length p.parser.header_buf + length b)) p b
  enough p [] = tt
  enough p (c ∷ b) =
      (length p.parser.header_buf + length (c ∷ b), meaning-Leaves p.parser (c ∷ b), omega arith)

  runs :
      (p : Protocol) (b : Bytes)
      → Waiting p.parser b
      → Ends validate_utf8 p b [] (process_raw_into validate_utf8 p b)
  unfolding process_raw_into
  runs p b w =
      raw_loop-Ends validate_utf8 (suc (length p.parser.header_buf + length b)) p b [] w
        (enough p b)

  Returns-ne-panic {ℓ} : {A : Type ℓ} (o : Outcome _ A) → Returns o → o ≢ panic
  Returns-ne-panic (ok a) n e = ground (arith, e)
  Returns-ne-panic (err x) n e = ground (arith, e)
  Returns-ne-panic panic n e = n

  -- From a waiting parser the loop ends with the fuel that it is given, and does not panic. What it
  -- leaves is what the frame format and the handlers say of the bytes: the same result, the same
  -- messages in order, and the same protocol apart from the parser.
  pub process_raw_into-Reads :
      (p : Protocol) (b : Bytes)
      → Waiting p.parser b
      → (out : Drained) × (process_raw_into validate_utf8 p b ≡ some out)
        × (out.0 ≢ panic)
        × Reads validate_utf8
            (core p)
            (meaning p.parser b)
            (out.0, record out.1 { parser = reset p.parser }, out.3)
  process_raw_into-Reads p b w = told (runs p b w)
    where
      told :
          Ends validate_utf8 p b [] (process_raw_into validate_utf8 p b)
          → (out : Drained) × (process_raw_into validate_utf8 p b ≡ some out)
            × (out.0 ≢ panic)
            × Reads validate_utf8
                (core p)
                (meaning p.parser b)
                (out.0, record out.1 { parser = reset p.parser }, out.3)
      told (out, is, ran) = (
        out,
        is,
        Returns-ne-panic out.0 ran.returns,
        subst
            (λ ms.
              Reads validate_utf8 (core p) (meaning p.parser b)
                (out.0, record out.1 { parser = reset p.parser }, ms))
            (sym ran.messages_are) ran.reads,
      )

  -- The run that returned `out`.
  process_raw_into-Ran :
      (p : Protocol) (b : Bytes) (out : Drained)
      → Waiting p.parser b
      → process_raw_into validate_utf8 p b ≡ some out
      → Ran validate_utf8 p b [] out
  process_raw_into-Ran p b out w e = back (runs p b w)
    where
      back :
          Ends validate_utf8 p b [] (process_raw_into validate_utf8 p b)
          → Ran validate_utf8 p b [] out
      back (d, is, ran) = subst (Ran validate_utf8 p b []) (some-injective d out (sym is ∙ e)) ran

  Waiting-append : (q : FrameParser) (b x : Bytes) → Waiting q b → Waiting q (b ++ x)
  Waiting-append q b x (i, n) = (InvIn-append q.state q b x i, n)

  -- A new protocol waits with any buffer.
  pub protocol_new-Waiting :
      (role : Role) (max_frame_size max_message_size : ℕ) (b : Bytes)
      → Waiting (protocol_new role max_frame_size max_message_size).parser b
  protocol_new-Waiting role max_frame_size max_message_size b = (refl, refl)

  module _ (p : Protocol) (b : Bytes) (p' : Protocol) (b' : Bytes)
      (messages : List RawMessage) where
    -- A call that returns no error leaves a waiting parser with the buffer that it leaves and whatever
    -- bytes are appended to it, with the frame limit and the modes of the parser as they were.
    pub process_raw_into-Waiting :
        Waiting p.parser b
        → process_raw_into validate_utf8 p b ≡ some (ok tt, p', b', messages)
        → (x : Bytes) → Waiting p'.parser (b' ++ x) × (reset p'.parser ≡ reset p.parser)
    process_raw_into-Waiting w e x =
        let ran = process_raw_into-Ran p b (ok tt, p', b', messages) w e in
        (Waiting-append p'.parser b' x ran.goes_on.0, ran.goes_on.1)

    -- The chunks in which the bytes arrive make no difference to the messages: when a call returns no
    -- error, and more bytes are appended to the buffer that it leaves, the next call has the result of
    -- one call on all the bytes at once and leaves the same protocol apart from the parser, and the
    -- messages of the two calls after one another are those of the one.
    pub process_raw_into-append :
        (x : Bytes)
        → Waiting p.parser b
        → process_raw_into validate_utf8 p b ≡ some (ok tt, p', b', messages)
        → (one two : Drained) × (process_raw_into validate_utf8 p' (b' ++ x) ≡ some one)
          × (process_raw_into validate_utf8 p (b ++ x) ≡ some two)
          × (two.0 ≡ one.0)
          × (record two.1 { parser = reset p.parser } ≡ record one.1 { parser = reset p.parser })
          × (two.3 ≡ messages ++ one.3)
    process_raw_into-append x w e =
        told (process_raw_into-Ran p b (ok tt, p', b', messages) w e)
          (process_raw_into-Reads p' (b' ++ x) (process_raw_into-Waiting w e x).0)
          (process_raw_into-Reads p (b ++ x) (Waiting-append p.parser b x w))
      where
        told :
            Ran validate_utf8 p b [] (ok tt, p', b', messages)
            → ((out : Drained) × (process_raw_into validate_utf8 p' (b' ++ x) ≡ some out)
                × (out.0 ≢ panic)
                × Reads validate_utf8
                    (core p')
                    (meaning p'.parser (b' ++ x))
                    (out.0, record out.1 { parser = reset p'.parser }, out.3))
            → ((out : Drained) × (process_raw_into validate_utf8 p (b ++ x) ≡ some out)
                × (out.0 ≢ panic)
                × Reads validate_utf8
                    (core p)
                    (meaning p.parser (b ++ x))
                    (out.0, record out.1 { parser = reset p.parser }, out.3))
            → (one two : Drained) × (process_raw_into validate_utf8 p' (b' ++ x) ≡ some one)
              × (process_raw_into validate_utf8 p (b ++ x) ≡ some two)
              × (two.0 ≡ one.0)
              × (record two.1 { parser = reset p.parser }
                  ≡ record one.1 { parser = reset p.parser })
              × (two.3 ≡ messages ++ one.3)
        told ran (one, is1, n1, r1) (two, is2, n2, r2) =
            let limits = ran.goes_on.1 in
            let joined =
              ran.goes_on.2 x (one.0, record one.1 { parser = reset p'.parser }, one.3) r1 in
            let same =
              Reads-unique validate_utf8 (core p) (meaning p.parser (b ++ x))
                (two.0, record two.1 { parser = reset p.parser }, two.3)
                (one.0, record one.1 { parser = reset p'.parser }, ran.extra ++ one.3) r2 joined in
            (
              one,
              two,
              is1,
              is2,
              ap (λ (t : Processed). t.0) same,
              ap (λ (t : Processed). t.1) same ∙ ap (λ a. record one.1 { parser = a }) limits,
              ap (λ (t : Processed). t.2) same ∙ ap (λ ms. ms ++ one.3) (sym ran.messages_are),
            )
