-- ===== src/Extras/Rfh2.antt =====
-- grizzly_extras/async_message/mq/rfh2.py: RFH2 headers of IBM MQ. gzip, the XML parser, `str.encode`
-- and `bytes.decode` are the record `Codec`. Bytes are numbers below 256.
pub mod Bytes
pub mod Parts
pub mod RoundTrip
mod Examples
use grizzly.Common.{
  ℕ, zero, suc, ◌+◌, ◌-◌, ◌*◌, ◌/◌, ◌%◌, ◌^◌, ◌<◌, Bool, true, false, not, ◌&&◌, List, [], ◌∷◌,
  ◌++◌, map, Option, none, some, if◌then◌else◌, ltb, ◌=ℕ◌, length, take, drop, list_eq, nat_eq,
  ◌==◌, Result, ok, err, ◌>>=◌,
}
use grizzly.Common.Dict.{Dict}
use grizzly.Common.Int.{ℤ, pos, negsuc, ◌+ℤ◌}
use grizzly.Common.Text.{Text, codes}
use grizzly.Common.Decimal.{show}
use grizzly.Exceptions.{Exception, value_error, not_implemented_error, other}

abbrev pub Bytes : Type 0
Bytes = List ℕ

-- What the decoder reads of an element: its tag, and of `find('ContentEncoding')`, where it is there,
-- the text.
pub record Element : Type 0 where
  pub tag : Text
  pub content_encoding : Option (Option Text)

pub record Codec : Type 0 where
  pub encode : Text → Bytes
  pub decode : Bytes → Option Text
  pub parse_xml : Text → Option Element
  pub compress : Bytes → Bytes
  pub decompress : Bytes → Result Exception Bytes

-- struct.pack('<l', n) for a number that is not negative; `struct.error` is `other 0`
unfoldable pub little_endian : ℕ → ℕ → Bytes
little_endian zero n = []
little_endian (suc k) n = n % 256 ∷ little_endian k (n / 256)

pub pack_l : ℕ → Result Exception Bytes
pack_l n = if ltb n 0x80000000 then ok (little_endian 4 n) else err (other 0)

-- struct.unpack('<l', b)
unfoldable pub from_little_endian : Bytes → ℕ
from_little_endian [] = 0
from_little_endian (b ∷ bs) = b + 256 * from_little_endian bs

pub unpack_l : Bytes → Option ℤ
unpack_l bs =
    if length bs =ℕ 4
    then (let n = from_little_endian bs in
        if ltb n 0x80000000 then some (pos n) else some (negsuc (0xffffffff - n)))
    else none

-- An index of a slice, from the end where it is negative.
pub slice_index : ℕ → ℤ → ℕ
slice_index size (pos i) = if ltb i size then i else size
slice_index size (negsuc i) = size - (i + 1)

-- bs[i:j]
pub slice : Bytes → ℤ → ℤ → Bytes
slice bs i j =
    let from = slice_index (length bs) i in
    let to = slice_index (length bs) j in take (to - from) (drop from bs)

abbrev pub header_length : ℕ
header_length = 36

abbrev pub struc_id : Bytes
struc_id = codes "RFH "

-- Rfh2Decoder.is_rfh2
unfoldable pub is_rfh2 : Bytes → Bool
is_rfh2 message =
    let start = take 8 message in
    if length start =ℕ 8
    then (elim (unpack_l (drop 4 start)) [
      | none ↦ false
      | some version ↦ elim version [
        | pos v ↦ take 4 start == struc_id && v =ℕ 2
        | negsuc v ↦ false
      ]
    ])
    else false

-- Rfh2Decoder._parse_header: the name values and the payload
pub parse_header : Bytes → Result Exception (Bytes × Bytes)
parse_header message =
    let start = take header_length message in
    if length start =ℕ header_length
    then (elim (unpack_l (take 4 (drop 8 start))) [
      | none ↦ err value_error
      | some struc_length ↦
          let name_values = slice message (pos header_length) struc_length in
          ok (name_values, drop (header_length + length name_values) message)
    ])
    else err value_error

-- The loop over the three parts: padded on the number of characters.
unfoldable pub pad : Text → Text
pad value =
    if length value % 4 =ℕ 0 then value else value ++ take (4 - length value % 4) (codes "    ")

module _ (codec : Codec) where
  -- One part from `pos` on, and the position after it.
  pub read_part : Bytes → ℤ → Result Exception (Element × ℤ)
  read_part name_values position =
      elim (unpack_l (slice name_values position (position +ℤ pos 4))) [
        | none ↦ err value_error
        | some part_length ↦
            let start = position +ℤ pos 4 in
            let end = start +ℤ part_length in
            elim (codec.decode (slice name_values start end)) [
              | none ↦ err value_error
              | some part ↦ elim (codec.parse_xml part) [
                | none ↦ err value_error
                | some element ↦ ok (element, end)
              ]
            ]
      ]

  -- `pos <= maxpos`
  abbrev is_inside : ℤ → Bytes → Bool
  is_inside (pos i) name_values = ltb i (length name_values)
  is_inside (negsuc i) name_values = true

  -- The loop of Rfh2Decoder._parse_name_values; `none` where the fuel runs out.
  pub parse_parts : ℕ → Bytes → ℤ → Option (Result Exception (List Element))
  parse_parts zero name_values position = none
  parse_parts (suc fuel) name_values position = elim (is_inside position name_values) [
    | false ↦ some (ok [])
    | true ↦ elim (read_part name_values position) [
      | err e ↦ some (err e)
      | ok (element, position') ↦ elim (parse_parts fuel name_values position') [
        | none ↦ none
        | some result ↦ some (result >>= λ elements. ok (element ∷ elements))
      ]
    ]
  ]

  pub parse_name_values : ℕ → Bytes → Option (Result Exception (List Element))
  parse_name_values fuel [] = some (ok [])
  parse_name_values fuel (b ∷ bs) = parse_parts fuel (b ∷ bs) (pos 0)

  -- Rfh2Decoder._get_usr_encoding
  pub usr_encoding : List Element → Option Text
  usr_encoding [] = none
  usr_encoding (element ∷ elements) =
      let others = usr_encoding elements in
      if element.tag == codes "usr"
      then elim element.content_encoding [ none ↦ none | some text ↦ text ]
      else others

  -- Rfh2Decoder.get_payload
  pub get_payload : List Element → Bytes → Result Exception Bytes
  get_payload elements payload = elim (usr_encoding elements) [
    | none ↦ ok payload
    | some encoding ↦ if encoding == codes "gzip" then codec.decompress payload else ok payload
  ]

  -- Rfh2Decoder(message).get_payload()
  pub decode_message : ℕ → Bytes → Option (Result Exception Bytes)
  decode_message fuel message = elim (parse_header message) [
    | err e ↦ some (err e)
    | ok (name_values, payload) ↦ elim (parse_name_values fuel name_values) [
      | none ↦ none
      | some result ↦ some (result >>= λ elements. get_payload elements payload)
    ]
  ]

  -- Each with the number of its bytes in front.
  pub pack_parts : List Text → Result Exception Bytes
  pack_parts [] = ok []
  pack_parts (value ∷ values) = do
    let name_value = codec.encode (pad value)
    size ← pack_l (length name_value)
    rest ← pack_parts values
    ok (size ++ (name_value ++ rest))

-- `<key>value</key>` for each entry of the metadata
unfoldable pub metadata_headers : Dict Text Text → Text
metadata_headers [] = []
metadata_headers ((key, value) ∷ rest) =
    codes "<"
    ++ (key
        ++ (codes ">" ++ (value ++ (codes "</" ++ (key ++ (codes ">" ++ metadata_headers rest))))))

abbrev pub mcd_text : Text
mcd_text = codes "<mcd><Msd>jms_bytes</Msd></mcd>"

unfoldable pub jms_text : Text → Text → Text
jms_text queue_name tstamp =
    codes "<jms><Dst>queue:///"
    ++ (queue_name ++ (codes "</Dst><Tms>" ++ (tstamp ++ codes "</Tms><Dlv>2</Dlv></jms>")))

unfoldable pub usr_text : Dict Text Text → ℕ → Text
usr_text metadata content_length =
    codes "<usr>"
    ++ (metadata_headers metadata
        ++ (codes "<ContentEncoding>gzip</ContentEncoding><ContentLength dt='i8'>"
            ++ (show (pos content_length) ++ codes "</ContentLength></usr>")))

-- Rfh2Encoder._build_header
pub build_header : Bytes → Result Exception Bytes
build_header name_values = do
  struc_length ← pack_l (header_length + length name_values)
  ok (
      struc_id
      ++ (little_endian 4 2
          ++ (struc_length
              ++ (little_endian 4 546
                  ++ (little_endian 4 1208
                      ++ (codes "        " ++ (little_endian 4 0 ++ little_endian 4 1208)))))))

-- Rfh2Encoder(payload, queue_name, encoding, tstamp, metadata).get_message(); `tstamp` is the one that
-- is given, or the time.
pub encode_message : Codec → Bytes → Text → Text → Text → Dict Text Text → Result Exception Bytes
encode_message codec payload queue_name encoding tstamp metadata =
    if not (encoding == codes "gzip") then err not_implemented_error else (do
      let compressed = codec.compress payload
      name_values ←
          pack_parts codec
            (mcd_text ∷ jms_text queue_name tstamp ∷ usr_text metadata (length compressed) ∷ [])
      header ← build_header name_values
      ok (header ++ (name_values ++ compressed)))
