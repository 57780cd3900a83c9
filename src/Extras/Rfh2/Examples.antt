-- ===== src/Extras/Rfh2/Examples.antt =====
-- A message with one header of metadata, for a codec that writes text as its characters.
use grizzly.Common.{
  ◌+◌, ◌≡◌, refl, true, [], ◌∷◌, none, some, if◌then◌else◌, ltb, ltb→lt, length, take, drop,
  list_eq, nat_eq, ◌==◌, ok,
}
use grizzly.Common.Dict.{Dict}
use grizzly.Common.Text.{Text, codes}
use grizzly.Common.Decimal.{show, show_ℕ, digits_of}
use grizzly.Extras.Rfh2.{
  Bytes, Codec, Element, little_endian, header_length, is_rfh2, decode_message, encode_message, pad,
  jms_text, usr_text, metadata_headers,
}
use grizzly.Extras.Rfh2.Parts.{Parses, packed}
use grizzly.Extras.Rfh2.RoundTrip.{texts_of, decode_message-encode_message}

abbrev usr_element : Element
usr_element = record { tag = codes "usr"; content_encoding = some (some (codes "gzip")) }

abbrev other_element : Element
other_element = record { tag = codes "mcd"; content_encoding = none }

abbrev plain : Codec
plain = record {
  encode = λ text. text;
  decode = λ bytes. some bytes;
  parse_xml = λ text. if take 5 text == codes "<usr>" then some usr_element else some other_element;
  compress = λ bytes. 31 ∷ bytes;
  decompress = λ bytes. ok (drop 1 bytes);
}

abbrev payload : Bytes
payload = codes "hi"

abbrev metadata : Dict Text Text
metadata = (codes "a", codes "b") ∷ []

parsed :
    Parses plain
      (texts_of plain (codes "Q") (codes "1") metadata payload)
      (other_element ∷ other_element ∷ usr_element ∷ [])
unfolding Parses pad jms_text usr_text metadata_headers little_endian show show_ℕ digits_of
parsed = (refl, (refl, (refl, tt)))

size :
    ltb
      (header_length
        + length (packed plain (texts_of plain (codes "Q") (codes "1") metadata payload)))
      0x80000000
    ≡ true
unfolding packed pad jms_text usr_text metadata_headers little_endian show show_ℕ digits_of
size = refl

decode_message-encode_message_example :
    (message : Bytes) × (encode_message plain payload
        (codes "Q")
        (codes "gzip")
        (codes "1")
        metadata
      ≡ ok message)
    × (is_rfh2 message ≡ true)
    × (decode_message plain 4 message ≡ some (ok payload))
decode_message-encode_message_example =
    decode_message-encode_message plain payload (codes "Q") (codes "1") metadata other_element
      other_element usr_element 4 (λ text. refl) (λ bytes. refl) parsed refl refl refl refl
      (ltb→lt
        (header_length
          + length (packed plain (texts_of plain (codes "Q") (codes "1") metadata payload)))
        0x80000000 size)
      (ltb→lt 3 4 refl)
