-- ===== src/Extras/Mq/Examples.antt =====
-- A queue manager with one queue, whose messages are got in their order, for a codec that writes text
-- as its characters.
use grizzly.Common.{
  ◌+◌, ◌≡◌, refl, Bool, true, false, List, [], ◌∷◌, ◌++◌, Option, none, some, arith, if◌then◌else◌,
  ltb, ltb→lt, length, take, drop, list_eq, nat_eq, ◌==◌, Result, ok, err,
}
use grizzly.Common.Decimal.{show, show_ℕ, digits_of}
use grizzly.Common.Int.{pos}
use grizzly.Common.Text.{Text, codes}
use grizzly.Extras.Messages.{Failure, mqmi_error, Context, Request, said}
use grizzly.Extras.Mq.Connect.{connect-failed}
use grizzly.Extras.Mq.Empty.{Queued, plain_get, reply_of, attempts-skips_empty}
use grizzly.Extras.Mq.Perform.{done, put_operation, Target, queue_text, put_message}
use grizzly.Extras.Mq.Put.{put_message-get_payload}
use grizzly.Extras.Mq.Requests.{attempts}
use grizzly.Extras.Mq.Steps.{Handler}
use grizzly.Extras.Mq.{
  Md, Gmo, Content, nothing, text, binary, Pymqi, connect, decoded, get_payload,
}
use grizzly.Extras.Rfh2.{
  Bytes, Codec, Element, little_endian, header_length, is_rfh2, pad, jms_text, usr_text,
  metadata_headers,
}
use grizzly.Extras.Rfh2.Parts.{Parses, packed}
use grizzly.Extras.Rfh2.RoundTrip.{texts_of}

abbrev usr_element : Element
usr_element = record { tag = codes "usr"; content_encoding = some (some (codes "gzip")) }

abbrev other_element : Element
other_element = record { tag = codes "mcd"; content_encoding = none }

abbrev characters : Codec
characters = record {
  encode = λ text. text;
  decode = λ bytes. some bytes;
  parse_xml = λ text. if take 5 text == codes "<usr>" then some usr_element else some other_element;
  compress = λ bytes. 31 ∷ bytes;
  decompress = λ bytes. ok (drop 1 bytes);
}

-- The messages on the queue, and those that a unit of work has taken off it.
abbrev World : Type 0
World = List Bytes × List Bytes

abbrev bytes_of : Content → Bytes
bytes_of nothing = []
bytes_of (text t) = t
bytes_of (binary bytes) = bytes

abbrev got : Md Unit → Gmo → World → Result Failure (Bytes × Md Unit) × World
got md gmo ([], taken) = (err (mqmi_error 2 2033), ([], taken))
got md gmo (message ∷ queue, taken) =
    (ok (message, md), if gmo.syncpoint then (queue, message ∷ taken) else (message ∷ queue, taken))

abbrev manager : Pymqi World Unit Unit Text
manager = record {
  codec = characters;
  connect_with_options = λ options w. (ok tt, w);
  disconnect = λ w. (ok tt, w);
  open_queue = λ name browsing w. (ok tt, w);
  close_queue = λ queue w. w;
  put = λ queue content md w. (ok md, (w.0 ++ (bytes_of content ∷ []), w.1));
  get = λ queue size md gmo w. got md gmo w;
  commit = λ w. (ok tt, (w.0, []));
  backout = λ w. (ok tt, (w.1 ++ w.0, []));
  sleep = λ time w. w;
  now = λ w. 0;
  tstamp = λ w. codes "1";
  plain_md = record { msg_id = []; fields = tt };
  rfh2_md = record { msg_id = []; fields = tt };
  cc_failed = 2;
  no_msg_available = 2033;
  truncated_msg_failed = 2080;
  backed_out = 2003;
  original_length = λ e. pos 0;
  text_of = λ e. codes "error";
  argument_text = λ e. codes "argument";
  available = λ content_type. none;
}

abbrev is_pending : World → Bool
is_pending (queue, []) = false
is_pending (queue, message ∷ taken) = true

abbrev waiting : World → List Bytes
waiting w = w.0

got-waiting :
    (md : Md Unit) (gmo : Gmo) (w : World) (message : Bytes) (rest : List Bytes)
    → gmo.syncpoint ≡ true
    → waiting w ≡ message ∷ rest
    → got md gmo w ≡ (ok (message, md), (rest, message ∷ w.1))
got-waiting md gmo ([], taken) message rest syncpoint has = absurd (ground (arith, has))
got-waiting md gmo (first ∷ queue, taken) message rest syncpoint has =
    ground (arith, syncpoint, has)

manager-Queued : Queued manager waiting
manager-Queued = record {
  opens = λ name w. (tt, w, refl, refl);
  gets = λ queue md gmo w message rest matches syncpoint has.
      (md, (rest, message ∷ w.1), got-waiting md gmo w message rest syncpoint has, refl);
  commits = λ w. ((w.0, []), refl, refl);
  closes = λ queue w. refl;
  sleeps = λ time w. refl;
}

abbrev context : Context
context = record {
  queue_manager = some (codes "QM");
  connection = some (codes "mq(1414)");
  channel = some (codes "CH");
  username = none;
  password = none;
  key_file = none;
  cert_label = none;
  ssl_cipher = none;
  message_wait = none;
  endpoint = some (codes "queue:Q");
  content_type = none;
  heartbeat_interval = none;
  header_type = none;
  metadata = none;
}

abbrev request_for : Text → Request
request_for action = record {
  action = some action;
  worker = none;
  client = none;
  context = some context;
  payload = none;
}

abbrev handler_with : Bool → Option Text → List Bytes → Handler World
handler_with connected header_type queue = record {
  connected = connected;
  message_wait = none;
  header_type = header_type;
  world = (queue, []);
}

abbrev unreachable : Pymqi World Unit Unit Text
unreachable = record manager { connect_with_options = λ options w. (err (mqmi_error 2 2059), w) }

connect-failed_example :
    (connect unreachable (request_for (codes "CONN")) (handler_with false none [])
      ≡ (err (mqmi_error 2 2059), handler_with true none []))
    × (connect unreachable (request_for (codes "CONN")) (handler_with true none [])
        ≡ (ok (said (codes "re-used connection")), handler_with true none []))
connect-failed_example =
    connect-failed unreachable (request_for (codes "CONN")) context (codes "mq(1414)") (codes "QM")
      (codes "CH") (handler_with false none []) (mqmi_error 2 2059) ([], []) refl refl refl refl
      refl refl

reads : (message : Bytes) → is_rfh2 message ≡ false → get_payload manager 5 message ≡ ok message
unfolding get_payload decoded
reads message no_header = rw (get_payload, no_header) refl

no_header : (is_rfh2 [] ≡ false) × (is_rfh2 (codes "hi") ≡ false)
unfolding is_rfh2
no_header = (refl, refl)

attempts-skips_empty_example :
    (md : Md Unit) × (w : World) × (attempts manager 5
        (plain_get (some (codes "Q")))
        (request_for (codes "GET"))
        5
        0
        none
        (handler_with true none ([] ∷ [] ∷ codes "hi" ∷ codes "ho" ∷ []))
      ≡ (ok (reply_of manager (codes "hi") md), record (handler_with true none []) { world = w }))
    × (waiting w ≡ codes "ho" ∷ [])
attempts-skips_empty_example =
    attempts-skips_empty manager waiting manager-Queued 5 ([] ∷ [] ∷ []) 5 (some (codes "Q"))
      (request_for (codes "GET")) 0 none
      (handler_with true none ([] ∷ [] ∷ codes "hi" ∷ codes "ho" ∷ [])) (codes "hi")
      (codes "ho" ∷ []) (codes "hi") (omega arith) refl
      (reads [] no_header.0, (reads [] no_header.0, tt)) (reads (codes "hi") no_header.1) refl refl

abbrev target : Target
target = record {
  operation = put_operation;
  queue_name = some (codes "Q");
  expression = none;
  max_message_size = none;
  metadata = (codes "a", codes "b") ∷ [];
}

parsed :
    Parses characters
      (texts_of characters
        (queue_text target.queue_name)
        (manager.tstamp ([], []))
        target.metadata
        (codes "hi"))
      (other_element ∷ other_element ∷ usr_element ∷ [])
unfolding Parses pad jms_text usr_text metadata_headers little_endian show show_ℕ digits_of
    queue_text
parsed = (refl, (refl, (refl, tt)))

small :
    ltb
      (header_length
        + length (
            packed characters (
              texts_of characters
                (queue_text target.queue_name)
                (manager.tstamp ([], []))
                target.metadata
                (codes "hi"))))
      0x80000000
    ≡ true
unfolding packed pad jms_text usr_text metadata_headers little_endian show show_ℕ digits_of
    queue_text
small = refl

put_message-get_payload_example :
    (message : Bytes) × (put_message manager target
        (some (codes "hi"))
        tt
        manager.plain_md
        (handler_with true (some (codes "rfh2")) [])
      ≡ (
        ok (done (some (codes "hi")) (length message) manager.plain_md),
        handler_with true (some (codes "rfh2")) (message ∷ []),
      ))
    × (get_payload manager 5 message ≡ ok (codes "hi"))
put_message-get_payload_example =
    put_message-get_payload manager target (codes "hi") tt manager.plain_md manager.plain_md
      (handler_with true (some (codes "rfh2")) []) (λ c. (bytes_of c ∷ [], [])) other_element
      other_element usr_element 5 refl (λ text. refl) (λ bytes. refl) parsed refl refl refl refl
      (ltb→lt
        (header_length
          + length (
              packed characters (
                texts_of characters (queue_text target.queue_name) (manager.tstamp ([], []))
                  target.metadata (codes "hi"))))
        0x80000000 small)
      (ltb→lt 3 5 refl) (λ c. refl)
