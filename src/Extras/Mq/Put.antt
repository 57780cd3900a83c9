-- ===== src/Extras/Mq/Put.antt =====
-- What is put with an RFH2 header, as a get of it reads it.
use grizzly.Common.{
  ℕ, ◌+◌, ◌<◌, ◌≡◌, refl, true, false, [], ◌∷◌, Option, some, length, list_eq, nat_eq, ◌==◌, ok,
}
use grizzly.Common.Text.{Text, codes}
use grizzly.Extras.Mq.Perform.{
  done, Target, queue_text, content_length, rfh2_content, content, put_message,
}
use grizzly.Extras.Mq.Steps.{Handler}
use grizzly.Extras.Mq.{Md, Content, binary, Pymqi, decoded, get_payload}
use grizzly.Extras.Rfh2.{Bytes, Element, header_length, is_rfh2, decode_message, encode_message}
use grizzly.Extras.Rfh2.Parts.{packed, Parses}
use grizzly.Extras.Rfh2.RoundTrip.{texts_of, decode_message-encode_message}

module _ {W Q M D : Type 0} (pymqi : Pymqi W Q M D) where
  get_payload-rfh2 :
      (fuel : ℕ) (message : Bytes) (payload : Text)
      → is_rfh2 message ≡ true
      → decode_message pymqi.codec fuel message ≡ some (ok (pymqi.codec.encode payload))
      → pymqi.codec.decode (pymqi.codec.encode payload) ≡ some payload
      → get_payload pymqi fuel message ≡ ok payload
  unfolding get_payload decoded
  get_payload-rfh2 fuel message payload header decodes text =
      rw (get_payload, header) (rw decodes (rw (decoded, text) refl))

  content-rfh2 :
      (target : Target) (header_type : Option Text) (payload : Text) (world : W) (message : Bytes)
      → header_type ≡ some (codes "rfh2")
      → encode_message pymqi.codec
          (pymqi.codec.encode payload)
          (queue_text target.queue_name)
          (codes "gzip")
          (pymqi.tstamp world)
          target.metadata
        ≡ ok message
      → content pymqi target header_type (some payload) world ≡ ok (binary message)
  unfolding content rfh2_content
  content-rfh2 target header_type payload world message rfh2 encodes =
      rw rfh2 (rw (rfh2_content, encodes) refl)

  put_message-ok :
      (target : Target) (payload : Option Text) (queue : Q) (md md' : Md M) (h : Handler W)
      (c : Content) (world : W)
      → content pymqi target h.header_type payload h.world ≡ ok c
      → pymqi.put queue c md h.world ≡ (ok md', world)
      → put_message pymqi target payload queue md h
        ≡ (ok (done payload (content_length c) md'), record h { world = world })
  unfolding put_message
  put_message-ok target payload queue md md' h c world has_content puts =
      rw (put_message, has_content) (rw puts refl)

  -- For a handler with RFH2 headers, where encoding and gzip can be undone, the three texts are parsed
  -- as expected, header and name values are shorter than 2^31 bytes, and the queue takes what is put:
  -- a payload is put as a message, whose length is reported, that _get_payload, with fuel for four
  -- steps, turns into that payload.
  pub put_message-get_payload :
      (target : Target) (payload : Text) (queue : Q) (md md' : Md M) (h : Handler W)
      (store : Content → W) (mcd jms usr : Element) (fuel : ℕ)
      → h.header_type ≡ some (codes "rfh2")
      → ((text : Text) → pymqi.codec.decode (pymqi.codec.encode text) ≡ some text)
      → ((bytes : Bytes) → pymqi.codec.decompress (pymqi.codec.compress bytes) ≡ ok bytes)
      → Parses pymqi.codec
          (texts_of pymqi.codec
            (queue_text target.queue_name)
            (pymqi.tstamp h.world)
            target.metadata
            (pymqi.codec.encode payload))
          (mcd ∷ jms ∷ usr ∷ [])
      → (mcd.tag == codes "usr") ≡ false
      → (jms.tag == codes "usr") ≡ false
      → usr.tag ≡ codes "usr"
      → usr.content_encoding ≡ some (some (codes "gzip"))
      → header_length
          + length (
              packed pymqi.codec (
                texts_of pymqi.codec
                  (queue_text target.queue_name)
                  (pymqi.tstamp h.world)
                  target.metadata
                  (pymqi.codec.encode payload)))
        < 0x80000000
      → 3 < fuel
      → ((c : Content) → pymqi.put queue c md h.world ≡ (ok md', store c))
      → (message : Bytes) × (put_message pymqi target (some payload) queue md h ≡ (
        ok (done (some payload) (length message) md'),
        record h { world = store (binary message) },
      ))
        × (get_payload pymqi fuel message ≡ ok payload)
  unfolding content_length
  put_message-get_payload target payload queue md md' h store mcd jms usr fuel rfh2 decodes
        decompresses parses mcd_other jms_other usr_tag usr_gzip small enough puts =
      let (message, encodes, header, decoded_back) =
        decode_message-encode_message pymqi.codec (pymqi.codec.encode payload)
          (queue_text target.queue_name) (pymqi.tstamp h.world) target.metadata mcd jms usr fuel
          decodes decompresses parses mcd_other jms_other usr_tag usr_gzip small enough in
      (
        message,
        put_message-ok target (some payload) queue md md' h (binary message)
            (store (binary message))
            (content-rfh2 target h.header_type payload h.world message rfh2 encodes)
            (puts (binary message)),
        get_payload-rfh2 fuel message payload header decoded_back (decodes payload),
      )
