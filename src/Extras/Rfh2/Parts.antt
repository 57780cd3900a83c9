-- ===== src/Extras/Rfh2/Parts.antt =====
-- The name values that are packed and parsed again.
use grizzly.Common.{
  ℕ, zero, suc, ◌+◌, ◌<◌, ◌≡◌, refl, ap, sym, true, false, List, [], ◌∷◌, ◌++◌, some, arith, ltb,
  lt→ltb, length, list_eq, nat_eq, length-append, append_assoc, append-nil, ok,
}
use grizzly.Common.Int.{pos, ◌+ℤ◌}
use grizzly.Common.Text.{Text}
use grizzly.Extras.Rfh2.{
  Bytes, Codec, Element, little_endian, pack_l, slice, read_part, parse_parts, pad, pack_parts,
}
use grizzly.Extras.Rfh2.Bytes.{length-little_endian, unpack_l-little_endian, slice-between}

pos-+ℤ-pos : (a b : ℕ) → pos a +ℤ pos b ≡ pos (a + b)
unfolding ◌+ℤ◌
pos-+ℤ-pos a b = ground arith

module _ (codec : Codec) where
  -- The bytes of the parts: the size of each, and then the part.
  unfoldable pub packed : List Text → Bytes
  packed [] = []
  packed (text ∷ texts) =
      let part = codec.encode (pad text) in little_endian 4 (length part) ++ (part ++ packed texts)

  pub pack_parts-packed :
      (texts : List Text)
      → length (packed texts) < 0x80000000
      → pack_parts codec texts ≡ ok (packed texts)
  unfolding pack_parts packed pack_l
  pack_parts-packed [] small = refl
  pack_parts-packed (text ∷ texts) small =
      let part = codec.encode (pad text) in
      let size : length (packed (text ∷ texts)) ≡ 4 + (length part + length (packed texts)) =
        omega (
          arith,
          length-append (little_endian 4 (length part)) (part ++ packed texts),
          length-little_endian 4 (length part),
          length-append part (packed texts),
        ) in
      let fits : ltb (length part) 0x80000000 ≡ true =
        lt→ltb (length part) 0x80000000 (omega (arith, size)) in
      rw (pack_l, fits, pack_parts-packed texts (omega (arith, size))) refl

  -- Each text is parsed as the element beside it.
  unfoldable pub Parses : List Text → List Element → Type 0
  Parses [] [] = Unit
  Parses (text ∷ texts) (element ∷ elements) =
      (codec.parse_xml (pad text) ≡ some element) × Parses texts elements
  Parses _ _ = ⊥

  read_part-packed :
      (before behind : Bytes) (text : Text) (element : Element)
      → codec.decode (codec.encode (pad text)) ≡ some (pad text)
      → codec.parse_xml (pad text) ≡ some element
      → length (codec.encode (pad text)) < 0x80000000
      → read_part codec
          (before
            ++ (little_endian 4 (length (codec.encode (pad text)))
                ++ (codec.encode (pad text) ++ behind)))
          (pos (length before))
        ≡ ok (element, pos (length before + 4 + length (codec.encode (pad text))))
  unfolding read_part
  read_part-packed before behind text element decodes parses small =
      let part = codec.encode (pad text) in
      let size = little_endian 4 (length part) in
      let size_length = length-little_endian 4 (length part) in
      let joined : before ++ (size ++ (part ++ behind)) ≡ (before ++ size) ++ (part ++ behind) =
        sym (append_assoc before size (part ++ behind)) in
      let first : slice (before ++ (size ++ (part ++ behind))) (pos (length before))
            (pos (length before + 4))
          ≡ size =
        slice-between before size (part ++ behind) (length before) (length before + 4) refl
          (omega (arith, size_length)) in
      let second : slice (before ++ (size ++ (part ++ behind))) (pos (length before + 4))
            (pos (length before + 4 + length part))
          ≡ part =
        rw joined (
          slice-between (before ++ size) part behind (length before + 4)
            (length before + 4 + length part)
            (omega (arith, size_length, length-append before size))
            (omega (arith, size_length, length-append before size))) in
      let value = unpack_l-little_endian (length part) (lt→ltb (length part) 0x80000000 small) in
      let end : pos (length before) +ℤ pos 4 +ℤ pos (length part)
          ≡ pos (length before + 4 + length part) =
        rw (pos-+ℤ-pos (length before) 4) (pos-+ℤ-pos (length before + 4) (length part)) in
      rw
        (
          read_part,
          pos-+ℤ-pos (length before) 4,
          first,
          value,
          end,
          pos-+ℤ-pos (length before) 4,
          second,
          decodes,
          parses,
        )
        (ap (λ e. ok (element, e)) end)

  pub parse_parts-packed :
      (fuel : ℕ) (texts : List Text) (elements : List Element) (before : Bytes)
      → length texts < fuel
      → ((text : Text) → codec.decode (codec.encode text) ≡ some text)
      → Parses texts elements
      → length (packed texts) < 0x80000000
      → parse_parts codec fuel (before ++ packed texts) (pos (length before)) ≡ some (ok elements)
  unfolding parse_parts packed Parses
  parse_parts-packed zero texts elements before enough decodes parses small = absurd (ground arith)
  parse_parts-packed (suc fuel) [] [] before enough decodes parses small =
      let outside : ltb (length before) (length (before ++ [])) ≡ false =
        rw (append-nil before) (ground arith) in
      rw (parse_parts, outside) refl
  parse_parts-packed (suc fuel) [] (element ∷ elements) before enough decodes parses small =
      elim parses [ ]
  parse_parts-packed (suc fuel) (text ∷ texts) [] before enough decodes parses small =
      elim parses [ ]
  parse_parts-packed (suc fuel) (text ∷ texts) (element ∷ elements) before enough decodes
        (parse, parses) small =
      let part = codec.encode (pad text) in
      let size = little_endian 4 (length part) in
      let size_length = length-little_endian 4 (length part) in
      let tail = length-append size (part ++ packed texts) in
      let behind = length-append part (packed texts) in
      let before' = before ++ (size ++ part) in
      let before'_length : length before' ≡ length before + 4 + length part =
        omega (arith, size_length, length-append before (size ++ part), length-append size part) in
      let inside : ltb (length before) (length (before ++ (size ++ (part ++ packed texts))))
          ≡ true =
        lt→ltb (length before) (length (before ++ (size ++ (part ++ packed texts)))) (
          omega (
            arith,
            size_length,
            tail,
            behind,
            length-append before (size ++ (part ++ packed texts)),
          )) in
      let read =
        read_part-packed before (packed texts) text element (decodes (pad text)) parse
          (omega (arith, size_length, tail, behind)) in
      let joined : before ++ (size ++ (part ++ packed texts)) ≡ before' ++ packed texts =
        rw
          (append_assoc before (size ++ part) (packed texts), append_assoc size part (packed texts))
          refl in
      let rest : parse_parts codec fuel (before ++ (size ++ (part ++ packed texts)))
            (pos (length before + 4 + length part))
          ≡ some (ok elements) =
        rw (joined, ← before'_length)
          (parse_parts-packed fuel texts elements before' (omega arith) decodes parses
            (omega (arith, size_length, tail, behind))) in
      rw (parse_parts, inside, read, rest) refl
