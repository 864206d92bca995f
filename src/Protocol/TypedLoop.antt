-- ===== src/Protocol/TypedLoop.antt =====
-- The receive loop `process_into_with_activity` of src/protocol.rs and what calls it. It runs on fuel
-- as the loop for raw messages does, and `none` is a loop that has not ended.
use sockudo_ws.Base.{
  ℕ, zero, suc, ◌+◌, Bool, true, false, Option, none, some, List, [], ◌∷◌, ◌++◌, length, Bytes,
  Outcome, ok, err, panic,
}
use mathlib.Core.Option.{map}
use sockudo_ws.Error.{Error}
use sockudo_ws.Parser.Types.{Parsed}
use sockudo_ws.Parser.Fast.{parse}
use sockudo_ws.Protocol.Types.{Message, Protocol, Handled}
use sockudo_ws.Protocol.Typed.{handle_frame, prevalidate_partial_text}

-- What a call leaves: its result, the protocol, the buffer, the messages, and whether a non-final
-- data frame was accepted.
abbrev pub TypedDrained : Type 0
TypedDrained = Outcome Error (Unit {0}) × Protocol × Bytes × List Message × Bool

abbrev pub TypedRest : Type 0
TypedRest = Protocol → Bytes → List Message → Bool → Option TypedDrained

-- `if let Some(msg) = self.handle_frame(frame, prevalidated)? { … } else { … }`
abbrev pub after_typed :
    TypedRest → Bytes → Handled (Option Message) → List Message → Bool → Option TypedDrained
after_typed rest buf (ok (some m), p) messages fragment = rest p buf (messages ++ (m ∷ [])) fragment
after_typed rest buf (ok none, p) messages fragment = rest p buf messages true
after_typed rest buf (err e, p) messages fragment = some (err e, p, buf, messages, fragment)
after_typed rest buf (panic, p) messages fragment = some (panic, p, buf, messages, fragment)

-- `self.prevalidate_partial_text(buf)?; break;`
abbrev pub after_partial : Bytes → Handled (Unit {0}) → List Message → Bool → Option TypedDrained
after_partial buf (result, p) messages fragment = some (result, p, buf, messages, fragment)

module _ (validate_utf8 from_utf8 : Bytes → Bool) where
  abbrev pub after_typed_parse :
      TypedRest → Protocol → Parsed → List Message → Bool → Option TypedDrained
  after_typed_parse rest p (ok none, q, buf) messages fragment =
      after_partial buf
        (prevalidate_partial_text validate_utf8 from_utf8 (record p { parser = q }) buf) messages
        fragment
  after_typed_parse rest p (ok (some f), q, buf) messages fragment =
      after_typed rest buf
        (handle_frame validate_utf8 from_utf8 (record p { parser = q; partial_checked = 0 }) f
          p.partial_checked)
        messages fragment
  after_typed_parse rest p (err e, q, buf) messages fragment =
      some (err e, record p { parser = q }, buf, messages, fragment)
  after_typed_parse rest p (panic, q, buf) messages fragment =
      some (panic, record p { parser = q }, buf, messages, fragment)

  -- `while !buf.is_empty()`
  abbrev pub typed_loop : ℕ → TypedRest
  typed_loop fuel p [] messages fragment = some (ok tt, p, [], messages, fragment)
  typed_loop zero p (b ∷ buf) messages fragment = none
  typed_loop (suc fuel) p (b ∷ buf) messages fragment =
      after_typed_parse (typed_loop fuel) p (parse p.parser (b ∷ buf)) messages fragment

  unfoldable pub process_into_with_activity : Protocol → Bytes → Option TypedDrained
  process_into_with_activity p buf =
      typed_loop (suc (length p.parser.header_buf + length buf)) p buf [] false

  -- The same without the flag
  abbrev pub process_into :
      Protocol → Bytes → Option (Outcome Error (Unit {0}) × Protocol × Bytes × List Message)
  process_into p buf =
      map (λ (r : TypedDrained). (r.0, r.1, r.2, r.3)) (process_into_with_activity p buf)
