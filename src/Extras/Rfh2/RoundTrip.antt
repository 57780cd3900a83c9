-- ===== src/Extras/Rfh2/RoundTrip.antt =====
-- A message that is encoded and decoded again.
use grizzly.Common.{
  ℕ, ◌+◌, ◌<◌, ◌≡◌, refl, true, false, List, [], ◌∷◌, ◌++◌, some, arith, lt→ltb, length, take, drop,
  list_eq, nat_eq, ◌==◌, ok,
}
use grizzly.Common.Dict.{Dict}
use grizzly.Common.Int.{pos}
use grizzly.Common.Text.{Text, codes}
use grizzly.Extras.Rfh2.{
  Bytes, Codec, Element, little_endian, pack_l, unpack_l, slice, header_length, struc_id,
  from_little_endian, is_rfh2, parse_header, parse_parts, parse_name_values, usr_encoding,
  get_payload, decode_message, mcd_text, jms_text, usr_text, build_header, encode_message,
}
use grizzly.Extras.Rfh2.Bytes.{unpack_l-little_endian, slice-between, drop-length_both}
use grizzly.Extras.Rfh2.Parts.{packed, Parses, pack_parts-packed, parse_parts-packed}

-- The header in front of name values of a size.
abbrev pub header : ℕ → Bytes
header size =
    struc_id
    ++ (little_endian 4 2
        ++ (little_endian 4 (header_length + size)
            ++ (little_endian 4 546
                ++ (little_endian 4 1208
                    ++ (codes "        " ++ (little_endian 4 0 ++ little_endian 4 1208))))))

build_header-header :
    (name_values : Bytes)
    → header_length + length name_values < 0x80000000
    → build_header name_values ≡ ok (header (length name_values))
unfolding build_header pack_l
build_header-header name_values small =
    rw (build_header, pack_l, lt→ltb (header_length + length name_values) 0x80000000 small) refl

is_rfh2-header : (size : ℕ) (behind : Bytes) → is_rfh2 (header size ++ behind) ≡ true
unfolding is_rfh2 little_endian unpack_l from_little_endian
is_rfh2-header size behind = refl

parse_header-header :
    (name_values payload : Bytes)
    → header_length + length name_values < 0x80000000
    → parse_header (header (length name_values) ++ (name_values ++ payload))
      ≡ ok (name_values, payload)
unfolding parse_header little_endian
parse_header-header name_values payload small =
    let size = header_length + length name_values in
    let message = header (length name_values) ++ (name_values ++ payload) in
    let value : unpack_l (take 4 (drop 8 (take 36 message))) ≡ some (pos size) =
      unpack_l-little_endian size (lt→ltb size 0x80000000 small) in
    let part : slice message (pos 36) (pos size) ≡ name_values =
      slice-between (header (length name_values)) name_values payload 36 size refl refl in
    let rest : drop (36 + length name_values) message ≡ payload =
      drop-length_both (header (length name_values)) name_values payload in
    rw (value, part, rest) refl

parse_name_values-packed :
    (codec : Codec) (fuel : ℕ) (text : Text) (texts : List Text)
    → parse_name_values codec fuel (packed codec (text ∷ texts))
      ≡ parse_parts codec fuel (packed codec (text ∷ texts)) (pos 0)
unfolding parse_name_values packed little_endian
parse_name_values-packed codec fuel text texts = refl

get_payload-gzip :
    (codec : Codec) (mcd jms usr : Element) (payload : Bytes)
    → (mcd.tag == codes "usr") ≡ false
    → (jms.tag == codes "usr") ≡ false
    → usr.tag ≡ codes "usr"
    → usr.content_encoding ≡ some (some (codes "gzip"))
    → get_payload codec (mcd ∷ jms ∷ usr ∷ []) payload ≡ codec.decompress payload
unfolding get_payload usr_encoding
get_payload-gzip codec mcd jms usr payload mcd_other jms_other usr_tag usr_gzip =
    rw (get_payload, usr_encoding, mcd_other, jms_other, usr_tag, usr_gzip) refl

module _ (codec : Codec) where
  -- The texts of the three parts.
  abbrev pub texts_of : Text → Text → Dict Text Text → Bytes → List Text
  texts_of queue_name tstamp metadata payload =
      mcd_text
      ∷ jms_text queue_name tstamp
      ∷ usr_text metadata (length (codec.compress payload))
      ∷ []

  -- Where the bytes of a text are decoded as that text and what gzip compresses is decompressed again,
  -- the texts of the three parts are parsed as elements of which only the last is named `usr` and holds
  -- the content encoding gzip, and header and name values are shorter than 2^31 bytes: the encoder
  -- returns a message, that message is taken for one with an RFH2 header, and the decoder gets the
  -- payload of it, with fuel for four steps or more.
  pub decode_message-encode_message :
      (payload : Bytes) (queue_name tstamp : Text) (metadata : Dict Text Text)
      (mcd jms usr : Element) (fuel : ℕ)
      → ((text : Text) → codec.decode (codec.encode text) ≡ some text)
      → ((bytes : Bytes) → codec.decompress (codec.compress bytes) ≡ ok bytes)
      → Parses codec (texts_of queue_name tstamp metadata payload) (mcd ∷ jms ∷ usr ∷ [])
      → (mcd.tag == codes "usr") ≡ false
      → (jms.tag == codes "usr") ≡ false
      → usr.tag ≡ codes "usr"
      → usr.content_encoding ≡ some (some (codes "gzip"))
      → header_length + length (packed codec (texts_of queue_name tstamp metadata payload))
        < 0x80000000
      → 3 < fuel
      → (message : Bytes) × (encode_message codec payload queue_name (codes "gzip") tstamp metadata
          ≡ ok message)
        × (is_rfh2 message ≡ true)
        × (decode_message codec fuel message ≡ some (ok payload))
  unfolding encode_message decode_message parse_name_values
  decode_message-encode_message payload queue_name tstamp metadata mcd jms usr fuel decodes
        decompresses parses mcd_other jms_other usr_tag usr_gzip small enough =
      let texts = texts_of queue_name tstamp metadata payload in
      let name_values = packed codec texts in
      let compressed = codec.compress payload in
      let message = header (length name_values) ++ (name_values ++ compressed) in
      let packs = pack_parts-packed codec texts (omega arith) in
      let parsed : parse_name_values codec fuel name_values ≡ some (ok (mcd ∷ jms ∷ usr ∷ [])) =
        rw (parse_name_values-packed codec fuel mcd_text (drop 1 texts)) (
          parse_parts-packed codec fuel texts (mcd ∷ jms ∷ usr ∷ []) [] enough decodes parses
            (omega arith)) in
      let payload_of =
        get_payload-gzip codec mcd jms usr compressed mcd_other jms_other usr_tag usr_gzip in
      (
        message,
        rw (packs, build_header-header name_values small) refl,
        is_rfh2-header (length name_values) (name_values ++ compressed),
        rw
            (
              decode_message,
              parse_header-header name_values compressed small,
              parsed,
              payload_of,
              decompresses payload,
            )
            refl,
      )
