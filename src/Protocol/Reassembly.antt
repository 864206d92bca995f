-- ===== src/Protocol/Reassembly.antt =====
-- A message sent in fragments, with control frames between them, by the raw handlers of
-- src/protocol.rs.
use sockudo_ws.Base.{
  ◌+◌, ◌≤◌, if◌then◌else◌, Bool, true, false, none, some, List, [], ◌∷◌, ◌++◌, length, Bytes, ok,
  err, ◌≡◌, refl, sym, ap, ◌∙◌, arith, le→ltb_false, length-append,
}
use mathlib.Core.List.{append_assoc, append-nil}
use sockudo_ws.Error.{Error}
use sockudo_ws.Frame.{OpCode, Frame}
use sockudo_ws.Protocol.Types.{RawMessage, Protocol}
use sockudo_ws.Protocol.Raw.{
  complete_raw_fragment, start_raw_fragment, handle_raw_continuation, handle_raw_text,
  handle_raw_binary, next_frame, process_frames, pushed, Processed,
}

-- What may stand between the first fragment and the last one.
pub data Between : Type 0 where
  part : Bytes → Between
  ping : Bytes → Between
  pong : Bytes → Between

abbrev pub frame_of : OpCode → Bool → Bytes → Frame
frame_of o fin payload = record {
  header = record {
    fin = fin;
    rsv1 = false;
    rsv2 = false;
    rsv3 = false;
    opcode = o;
    masked = false;
    payload_len = length payload;
    mask = none;
  };
  payload = payload;
}

abbrev pub between_frame : Between → Frame
between_frame (Between.part b) = frame_of OpCode.continuation false b
between_frame (Between.ping b) = frame_of OpCode.ping true b
between_frame (Between.pong b) = frame_of OpCode.pong true b

abbrev pub between_frames : List Between → List Frame
between_frames [] = []
between_frames (x ∷ xs) = between_frame x ∷ between_frames xs

-- The bytes of the fragments, and the control messages, in the order in which they come.
abbrev pub parts : List Between → Bytes
parts [] = []
parts (Between.part b ∷ xs) = b ++ parts xs
parts (Between.ping b ∷ xs) = parts xs
parts (Between.pong b ∷ xs) = parts xs

abbrev pub controls : List Between → List RawMessage
controls [] = []
controls (Between.part b ∷ xs) = controls xs
controls (Between.ping b ∷ xs) = RawMessage.ping b ∷ controls xs
controls (Between.pong b ∷ xs) = RawMessage.pong b ∷ controls xs

module _ (validate_utf8 : Bytes → Bool) where
  abbrev pub filled : Protocol → OpCode → Bytes → Protocol
  filled p o buf = record p {
    fragment_opcode = some o;
    fragment_validated_len = 0;
    fragment_buf = buf;
    partial_checked = 0;
  }

  part_step :
      (p : Protocol) (o : OpCode) (buf b : Bytes) (ms : List RawMessage)
      → length buf + length b ≤ p.max_message_size
      → next_frame validate_utf8 (ok tt, filled p o buf, ms) (frame_of OpCode.continuation false b)
        ≡ (ok tt, filled p o (buf ++ b), ms)
  unfolding handle_raw_continuation
  part_step p o buf b ms l =
      ap
        (λ t.
          pushed
            (if t
              then (err Error.message_too_large, filled p o buf)
              else (ok none, filled p o (buf ++ b)))
            ms)
        (le→ltb_false p.max_message_size (length buf + length b) l)

  moved :
      (p : Protocol) (o : OpCode) (a b : Bytes) (ms ns : List RawMessage)
      → a ≡ b
      → ms ≡ ns
      → Path Processed (ok tt, filled p o a, ms) (ok tt, filled p o b, ns)
  moved p o a b ms ns e g i = (ok tt, filled p o (e i), g i)

  middle :
      (xs : List Between) (p : Protocol) (o : OpCode) (buf : Bytes) (ms : List RawMessage)
      → length buf + length (parts xs) ≤ p.max_message_size
      → process_frames validate_utf8 (ok tt, filled p o buf, ms) (between_frames xs)
        ≡ (ok tt, filled p o (buf ++ parts xs), ms ++ controls xs)
  middle [] p o buf ms l =
      moved p o buf (buf ++ []) ms (ms ++ []) (sym (append-nil buf)) (sym (append-nil ms))
  middle (Between.part b ∷ xs) p o buf ms l =
      ap (λ r. process_frames validate_utf8 r (between_frames xs))
        (part_step p o buf b ms (omega (arith, l, length-append b (parts xs))))
      ∙ middle xs p o (buf ++ b) ms
          (omega (arith, l, length-append b (parts xs), length-append buf b))
      ∙ moved p o ((buf ++ b) ++ parts xs) (buf ++ (b ++ parts xs)) (ms ++ controls xs)
          (ms ++ controls xs) (append_assoc buf b (parts xs)) refl
  middle (Between.ping b ∷ xs) p o buf ms l =
      middle xs p o buf (ms ++ (RawMessage.ping b ∷ [])) l
      ∙ moved p o (buf ++ parts xs) (buf ++ parts xs)
          ((ms ++ (RawMessage.ping b ∷ [])) ++ controls xs)
          (ms ++ (RawMessage.ping b ∷ controls xs)) refl
          (append_assoc ms (RawMessage.ping b ∷ []) (controls xs))
  middle (Between.pong b ∷ xs) p o buf ms l =
      middle xs p o buf (ms ++ (RawMessage.pong b ∷ [])) l
      ∙ moved p o (buf ++ parts xs) (buf ++ parts xs)
          ((ms ++ (RawMessage.pong b ∷ [])) ++ controls xs)
          (ms ++ (RawMessage.pong b ∷ controls xs)) refl
          (append_assoc ms (RawMessage.pong b ∷ []) (controls xs))

  -- Which message a data opcode begins.
  abbrev pub assembled : Bool → Bytes → RawMessage
  assembled true b = RawMessage.text b
  assembled false b = RawMessage.binary b

  abbrev pub data_opcode : Bool → OpCode
  data_opcode true = OpCode.text
  data_opcode false = OpCode.binary

  first_step :
      (t : Bool) (p : Protocol) (a : Bytes)
      → p.fragment_opcode ≡ none
      → length a ≤ p.max_message_size
      → next_frame validate_utf8 (ok tt, p, []) (frame_of (data_opcode t) false a)
        ≡ (ok tt, filled p (data_opcode t) a, [])
  unfolding handle_raw_text handle_raw_binary start_raw_fragment
  first_step true p a e l = rw (next_frame, e, le→ltb_false p.max_message_size (length a) l)
  first_step false p a e l = rw (next_frame, e, le→ltb_false p.max_message_size (length a) l)

  last_step :
      (t : Bool) (p : Protocol) (buf c : Bytes) (ms : List RawMessage)
      → length buf + length c ≤ p.max_message_size
      → next_frame validate_utf8
          (ok tt, filled p (data_opcode t) buf, ms)
          (frame_of OpCode.continuation true c)
        ≡ (
          ok tt,
          record p {
            fragment_opcode = none;
            fragment_validated_len = 0;
            fragment_buf = [];
            partial_checked = 0;
          },
          ms ++ (assembled t (buf ++ c) ∷ []),
        )
  unfolding handle_raw_continuation complete_raw_fragment
  last_step true p buf c ms l =
      ap
        (λ t.
          pushed
            (if t then (err Error.message_too_large, filled p OpCode.text buf) else (
              ok (some (RawMessage.text (buf ++ c))),
              record p {
                fragment_opcode = none;
                fragment_validated_len = 0;
                fragment_buf = [];
                partial_checked = 0;
              },
            ))
            ms)
        (le→ltb_false p.max_message_size (length buf + length c) l)
  last_step false p buf c ms l =
      ap
        (λ t.
          pushed
            (if t then (err Error.message_too_large, filled p OpCode.binary buf) else (
              ok (some (RawMessage.binary (buf ++ c))),
              record p {
                fragment_opcode = none;
                fragment_validated_len = 0;
                fragment_buf = [];
                partial_checked = 0;
              },
            ))
            ms)
        (le→ltb_false p.max_message_size (length buf + length c) l)

  process_frames-append :
      (r : Processed) (fs gs : List Frame)
      → process_frames validate_utf8 r (fs ++ gs)
        ≡ process_frames validate_utf8 (process_frames validate_utf8 r fs) gs
  process_frames-append r [] gs = refl
  process_frames-append r (f ∷ fs) gs = process_frames-append (next_frame validate_utf8 r f) fs gs

  -- A text message (`t` true) or a binary message that arrives as a first fragment, any fragments
  -- with Ping and Pong frames between them, and a last fragment gives the Pings and Pongs in the
  -- order in which they came and then one message with the fragments' bytes in order, when no
  -- message is begun and the bytes are within the message limit. It leaves no message begun.
  pub process_frames-fragments :
      (t : Bool) (p : Protocol) (a : Bytes) (xs : List Between) (c : Bytes)
      → p.fragment_opcode ≡ none
      → length a + length (parts xs) + length c ≤ p.max_message_size
      → process_frames validate_utf8
          (ok tt, p, [])
          (frame_of (data_opcode t) false a
            ∷ (between_frames xs ++ (frame_of OpCode.continuation true c ∷ [])))
        ≡ (
          ok tt,
          record p {
            fragment_opcode = none;
            fragment_validated_len = 0;
            fragment_buf = [];
            partial_checked = 0;
          },
          controls xs ++ (assembled t ((a ++ parts xs) ++ c) ∷ []),
        )
  process_frames-fragments t p a xs c e l =
      ap
        (λ r.
          process_frames validate_utf8 r
            (between_frames xs ++ (frame_of OpCode.continuation true c ∷ [])))
        (first_step t p a e (omega (arith, l)))
      ∙ process_frames-append (ok tt, filled p (data_opcode t) a, []) (between_frames xs)
          (frame_of OpCode.continuation true c ∷ [])
      ∙ ap (λ r. next_frame validate_utf8 r (frame_of OpCode.continuation true c))
          (middle xs p (data_opcode t) a [] (omega (arith, l)))
      ∙ last_step t p (a ++ parts xs) c (controls xs) (omega (arith, l, length-append a (parts xs)))
