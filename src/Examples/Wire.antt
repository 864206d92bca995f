-- ===== src/Examples/Wire.antt =====
-- Frames of src/frame.rs and masks of src/simd.rs on concrete bytes.
use sockudo_ws.Base.{
  ◌+◌, true, false, none, some, [], ◌∷◌, ◌++◌, length, Bytes, ok, ◌≡◌, ◌≢◌, panic, refl, arith,
}
use sockudo_ws.Mask.{
  MaskKey, mask_from, apply_mask, apply_mask_offset, encode_payload_masked_inline,
}
use sockudo_ws.Mask.Apply.{apply_mask-mask_from, apply_mask_offset-mask_from}
use sockudo_ws.Mask.Copy.{encode_payload_masked_inline-mask_from}
use sockudo_ws.Frame.{OpCode}
use sockudo_ws.Frame.Encode.{
  header_with_rsv, total_size, encode_frame_header_with_rsv, encode_frame_with_rsv,
}
use sockudo_ws.Frame.Laws.{
  masked_payload, encode_frame_with_rsv-encode_frame_header_with_rsv, length-encode_frame_with_rsv,
}
use sockudo_ws.Parser.Types.{FrameParser, new, reset}
use sockudo_ws.Parser.Header.{parse_header, parse_slow}
use sockudo_ws.Parser.Fast.{parse, small_unmasked, small_masked}
use sockudo_ws.Parser.Equal.{parse-parse_slow}
use sockudo_ws.Parser.Spec.{got, meaning}
use sockudo_ws.Parser.Resume.{Inv}
use sockudo_ws.Parser.Stream.{seen, parse-meaning, parse-Inv, parse-append}
use sockudo_ws.Parser.Accepts.{Accepts}
use sockudo_ws.Parser.RoundTrip.{parse-encode_frame_with_rsv}

abbrev key : MaskKey
key = record { m0 = 0x37; m1 = 0xFA; m2 = 0x21; m3 = 0x3D }

abbrev hello : Bytes
hello = 0x48 ∷ 0x65 ∷ 0x6C ∷ 0x6C ∷ 0x6F ∷ []

abbrev hello_masked : Bytes
hello_masked = 0x7F ∷ 0x9F ∷ 0x4D ∷ 0x51 ∷ 0x58 ∷ []

-- The example of RFC 6455, section 5.7.
hello_is_masked : mask_from key 0 hello ≡ hello_masked
hello_is_masked = refl

apply_mask-mask_from_example : apply_mask 3 hello key ≡ mask_from key 0 hello
apply_mask-mask_from_example = apply_mask-mask_from 3 hello key

apply_mask_offset-mask_from_example : apply_mask_offset 1 hello key 2 ≡ mask_from key 2 hello
apply_mask_offset-mask_from_example = apply_mask_offset-mask_from 1 hello key 2

encode_payload_masked_inline-mask_from_example :
    encode_payload_masked_inline hello key ≡ mask_from key 0 hello
encode_payload_masked_inline-mask_from_example = encode_payload_masked_inline-mask_from hello key

encode_frame_with_rsv-encode_frame_header_with_rsv_example :
    encode_frame_with_rsv [] OpCode.text hello true (some key) false
    ≡ encode_frame_header_with_rsv [] OpCode.text 5 true (some key) false
      ++ masked_payload (some key) hello
encode_frame_with_rsv-encode_frame_header_with_rsv_example =
    encode_frame_with_rsv-encode_frame_header_with_rsv [] OpCode.text hello true (some key) false

length-encode_frame_with_rsv_example :
    length (encode_frame_with_rsv hello OpCode.text hello true (some key) false)
    ≡ length hello + total_size 5 (some key)
length-encode_frame_with_rsv_example =
    length-encode_frame_with_rsv hello OpCode.text hello true (some key) false

-- A server's parser, and the masked text frame in two chunks.
abbrev server_parser : FrameParser
server_parser = new 1000 true

abbrev first_chunk : Bytes
first_chunk = 0x81 ∷ []

abbrev second_chunk : Bytes
second_chunk = 0x85 ∷ 0x37 ∷ 0xFA ∷ 0x21 ∷ 0x3D ∷ hello_masked

parse-parse_slow_example :
    parse server_parser (first_chunk ++ second_chunk)
    ≡ parse_slow server_parser (first_chunk ++ second_chunk)
parse-parse_slow_example = parse-parse_slow server_parser (first_chunk ++ second_chunk)

parse-meaning_example :
    (seen (parse server_parser (first_chunk ++ second_chunk))
      ≡ meaning server_parser (first_chunk ++ second_chunk))
    × ((parse server_parser (first_chunk ++ second_chunk)).0 ≢ panic)
parse-meaning_example = parse-meaning server_parser (first_chunk ++ second_chunk) refl

first_waits : (parse server_parser first_chunk).0 ≡ ok none
unfolding parse small_unmasked small_masked parse_header
first_waits = refl

parse-Inv_example :
    Inv (parse server_parser first_chunk).1 (parse server_parser first_chunk).2
    × (reset (parse server_parser first_chunk).1 ≡ reset server_parser)
parse-Inv_example = parse-Inv server_parser first_chunk none refl first_waits

parse-append_example :
    seen (
      parse
        (parse server_parser first_chunk).1
        ((parse server_parser first_chunk).2 ++ second_chunk))
    ≡ seen (parse server_parser (first_chunk ++ second_chunk))
parse-append_example = parse-append server_parser first_chunk second_chunk refl first_waits

server-Accepts : Accepts server_parser OpCode.text 5 true (some key) false
server-Accepts = record {
  masks = refl;
  compressed = λ e. absurd (cc);
  control_whole = λ e. absurd (cc);
  within = omega arith;
  fits = omega arith;
}

parse-encode_frame_with_rsv_example :
    seen (
      parse server_parser
        (encode_frame_with_rsv [] OpCode.text hello true (some key) false ++ first_chunk))
    ≡ got
        (record { header = header_with_rsv OpCode.text 5 true (some key) false; payload = hello })
        first_chunk
parse-encode_frame_with_rsv_example =
    parse-encode_frame_with_rsv server_parser OpCode.text hello true (some key) false first_chunk
      refl refl server-Accepts
