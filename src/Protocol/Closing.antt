-- ===== src/Protocol/Closing.antt =====
-- The closing handshake of src/protocol.rs.
use sockudo_ws.Base.{
  ℕ, ◌<◌, Bool, true, Option, some, [], ◌∷◌, ◌++◌, Bytes, ok, ◌≡◌, ◌≢◌, ◌⊎◌, inl, inr, refl, arith,
}
use sockudo_ws.Error.{CloseReason, is_valid_code}
use sockudo_ws.Mask.{MaskKey}
use sockudo_ws.Frame.{OpCode, Frame, put_u16}
use sockudo_ws.Frame.Encode.{encode_frame}
use sockudo_ws.Frame.Bytes.{be16-put_u16}
use sockudo_ws.Protocol.Types.{RawMessage, Message, State, Protocol, is_closed, is_closing}
use sockudo_ws.Protocol.Raw.{close_reason, handle_close}
use sockudo_ws.Protocol.Encode.{close_payload, encode_close_response, encode_message_into, mask_of}

cons-ne-nil : (x : ℕ) (xs : Bytes) → (x ∷ xs) ≢ []
cons-ne-nil x xs e = ground (arith, e)

module _ (validate_utf8 : Bytes → Bool) where
  read_back :
      (n : ℕ) (text : Bytes)
      → n < 65536
      → is_valid_code n ≡ true
      → (text ≡ []) ⊎ (validate_utf8 text ≡ true)
      → close_reason validate_utf8 (put_u16 n ++ text)
        ≡ ok (some (record { code = n; reason = text }))
  unfolding close_reason
  read_back n [] l v u = rw (be16-put_u16 n l, v)
  read_back n (c ∷ text) l v (inl e) = absurd (cons-ne-nil c text e)
  read_back n (c ∷ text) l v (inr u) = rw (be16-put_u16 n l, v, u)

  -- The payload that is written for a Close reason is read as that reason, when its code is one that
  -- may be sent and its text is empty or valid UTF-8.
  pub close_reason-close_payload :
      (r : CloseReason)
      → r.code < 65536
      → is_valid_code r.code ≡ true
      → (r.reason ≡ []) ⊎ (validate_utf8 r.reason ≡ true)
      → close_reason validate_utf8 (close_payload (some r)) ≡ ok (some r)
  close_reason-close_payload r l v u = read_back r.code r.reason l v u

  -- An open endpoint that receives a Close with a payload that is accepted reports it and is closing;
  -- its response carries the same code and text, and closes it.
  pub encode_close_response-handle_close :
      (p : Protocol) (f : Frame) (reason : Option CloseReason) (k : MaskKey) (buf : Bytes)
      → p.state ≡ State.open_
      → close_reason validate_utf8 f.payload ≡ ok reason
      → ((handle_close validate_utf8 p f).0 ≡ ok (some (RawMessage.close reason)))
        × (is_closing (handle_close validate_utf8 p f).1 ≡ true)
        × (is_closed (encode_close_response (handle_close validate_utf8 p f).1 k buf).0 ≡ true)
        × ((encode_close_response (handle_close validate_utf8 p f).1 k buf).1
            ≡ encode_frame buf OpCode.close (close_payload reason) true (mask_of p.role k))
  unfolding handle_close encode_close_response
  encode_close_response-handle_close p f reason k buf st e = rw (e, st) (refl, refl, refl, refl)

  -- An open endpoint that sends a Close is closing, and closed once it receives a Close that is
  -- accepted.
  pub handle_close-encode_message_into :
      (p : Protocol) (f : Frame) (sent reason : Option CloseReason) (k : MaskKey) (buf : Bytes)
      → p.state ≡ State.open_
      → close_reason validate_utf8 f.payload ≡ ok reason
      → (is_closing (encode_message_into p (Message.close sent) k buf).0 ≡ true)
        × (is_closed
              (handle_close validate_utf8 (encode_message_into p (Message.close sent) k buf).0 f).1
            ≡ true)
  unfolding handle_close encode_message_into
  handle_close-encode_message_into p f sent reason k buf st e = rw (e, st) (refl, refl)
