-- ===== src/Extras/Mq/Empty.antt =====
-- Empty messages: a get consumes them, and returns the first message that is not empty.
use grizzly.Common.{
  ℕ, zero, suc, ◌+◌, ◌<◌, ◌≡◌, ◌∙◌, refl, true, false, All, List, [], ◌∷◌, ◌++◌, Option, none, some,
  arith, if◌then◌else◌, ◌=ℕ◌, length, ok, err,
}
use grizzly.Common.Text.{Text, codes}
use grizzly.Extras.Messages.{message_error, Request, Reply}
use grizzly.Extras.Mq.Perform.{
  Outcome, retry, done, get_operation, Target, received, take_message, get_options, get_message,
  operate, execute,
}
use grizzly.Extras.Mq.Requests.{
  find_first, find_for, after_attempt, on_queue, attempt_request, or_again, attempts,
}
use grizzly.Extras.Mq.Steps.{Handler}
use grizzly.Extras.Mq.{
  Md, Gmo, Pymqi, create_gmo, safe_descriptor, queue_context, create_md, get_payload, is_rfh2_type,
}
use grizzly.Extras.Rfh2.{Bytes}

-- A queue of which messages are got in their order, and which nothing else changes.
pub record Queued {W Q M D : Type 0} (pymqi : Pymqi W Q M D) (waiting : W → List Bytes)
    : Type 0 where
  pub opens :
      (name : Option Text) (w : W)
      → (queue : Q) × (w' : W) × (pymqi.open_queue name false w ≡ (ok queue, w'))
        × (waiting w' ≡ waiting w)
  pub gets :
      (queue : Q) (md : Md M) (gmo : Gmo) (w : W) (message : Bytes) (rest : List Bytes)
      → gmo.match_msg_id ≡ false
      → gmo.syncpoint ≡ true
      → waiting w ≡ message ∷ rest
      → (md' : Md M) × (w' : W) × (pymqi.get queue none md gmo w ≡ (ok (message, md'), w'))
        × (waiting w' ≡ rest)
  pub commits : (w : W) → (w' : W) × (pymqi.commit w ≡ (ok tt, w')) × (waiting w' ≡ waiting w)
  pub closes : (queue : Q) (w : W) → waiting (pymqi.close_queue queue w) ≡ waiting w
  pub sleeps : (time : ℕ) (w : W) → waiting (pymqi.sleep time w) ≡ waiting w

-- A get without an expression and without a maximal size.
abbrev pub plain_get : Option Text → Target
plain_get queue_name = record {
  operation = get_operation;
  queue_name = queue_name;
  expression = none;
  max_message_size = none;
  metadata = [];
}

module _ {W Q M D : Type 0} (pymqi : Pymqi W Q M D) where
  -- What is returned for a message.
  abbrev pub reply_of : Text → Md M → Reply (Text × M)
  reply_of payload md = record {
    message = none;
    payload = some payload;
    metadata = some (safe_descriptor md);
    response_length = some (length (pymqi.codec.encode payload));
  }

module _ {W Q M D : Type 0} (pymqi : Pymqi W Q M D) (waiting : W → List Bytes)
    (queued : Queued pymqi waiting) (fuel : ℕ) where
  -- The get of one message.
  execute-get :
      (name : Option Text) (request : Request) (wait : Option ℕ) (queue : Q) (md : Md M)
      (h : Handler W) (message : Bytes) (rest : List Bytes) (payload : Text)
      → waiting h.world ≡ message ∷ rest
      → get_payload pymqi fuel message ≡ ok payload
      → (md' : Md M) × (w : W) × (execute pymqi fuel (plain_get name) request none wait queue md h
          ≡ (ok (received pymqi payload md'), record h { world = w }))
        × (waiting w ≡ rest)
  unfolding execute operate get_message get_options take_message
  execute-get name request wait queue md h message rest payload has_message reads =
      let (md', w', gets, left) =
        queued.gets queue md (create_gmo wait false) h.world message rest
          (unfold create_gmo in refl) (unfold create_gmo in refl) has_message in
      let (w'', commits, kept) = queued.commits w' in
      (md', w'', rw (execute, operate, gets) (rw reads (rw commits refl)), kept ∙ left)

  after_attempt-ok :
      (retries : ℕ) (outcome : Outcome M) (h : Handler W)
      → (w : W) × (after_attempt pymqi fuel retries outcome h
          ≡ (ok outcome, record h { world = w }))
        × (waiting w ≡ waiting h.world)
  unfolding after_attempt
  after_attempt-ok retries retry h = (_, refl, queued.sleeps _ h.world)
  after_attempt-ok retries (done payload size md) h = (h.world, refl, refl)

  -- A round, by the outcome of its get.
  attempt_request-get :
      (name : Option Text) (request : Request) (retries : ℕ) (wait : Option ℕ) (h : Handler W)
      (message : Bytes) (rest : List Bytes) (payload : Text)
      → waiting h.world ≡ message ∷ rest
      → get_payload pymqi fuel message ≡ ok payload
      → (md : Md M) × (w : W) × (attempt_request pymqi fuel (plain_get name) request retries wait h
          ≡ (ok (received pymqi payload md, wait), record h { world = w }))
        × (waiting w ≡ rest)
  unfolding attempt_request find_for find_first create_md queue_context on_queue
  attempt_request-get name request retries wait h message rest payload has_message reads =
      let (queue, w, opens, kept) = queued.opens name h.world in
      let md = if is_rfh2_type h.header_type then pymqi.rfh2_md else pymqi.plain_md in
      let (md', w', executes, left) =
        execute-get name request wait queue md (record h { world = w }) message rest payload
          (kept ∙ has_message) reads in
      let (w'', returns, same) =
        after_attempt-ok retries (received pymqi payload md') (record h { world = w' }) in
      (
        md',
        pymqi.close_queue queue w'',
        rw (queue_context, opens) (rw executes (rw returns refl)),
        queued.closes queue w'' ∙ (same ∙ left),
      )

  received-empty : (md : Md M) → pymqi.codec.encode [] ≡ [] → received pymqi [] md ≡ retry
  unfolding received
  received-empty md encodes = rw (received, encodes) refl

  received-done :
      (payload : Text) (md : Md M)
      → (length (pymqi.codec.encode payload) =ℕ 0) ≡ false
      → received pymqi payload md ≡ done (some payload) (length (pymqi.codec.encode payload)) md
  unfolding received
  received-done payload md long = rw (received, long) refl

  -- For a queue of which messages are got in their order: where fewer empty messages than there are
  -- attempts left wait in front of a message whose payload has bytes, a get without an expression and a
  -- maximal size returns that payload with the number of its bytes; the message and the empty ones are
  -- gone, and those behind it are still waiting.
  pub attempts-skips_empty :
      (empties : List Bytes) (left : ℕ) (name : Option Text) (request : Request) (retries : ℕ)
      (wait : Option ℕ) (h : Handler W) (message : Bytes) (rest : List Bytes) (payload : Text)
      → length empties < left
      → pymqi.codec.encode [] ≡ []
      → All (λ empty. get_payload pymqi fuel empty ≡ ok []) empties
      → get_payload pymqi fuel message ≡ ok payload
      → (length (pymqi.codec.encode payload) =ℕ 0) ≡ false
      → waiting h.world ≡ empties ++ (message ∷ rest)
      → (md : Md M) × (w : W) × (attempts pymqi fuel (plain_get name) request left retries wait h
          ≡ (ok (reply_of pymqi payload md), record h { world = w }))
        × (waiting w ≡ rest)
  unfolding attempts or_again
  attempts-skips_empty empties zero name request retries wait h message rest payload few encodes
        empty reads long has =
      absurd (ground (arith, few))
  attempts-skips_empty [] (suc left) name request retries wait h message rest payload few encodes
        empty reads long has =
      let (md, w, returns, gone) =
        attempt_request-get name request retries wait h message rest payload has reads in
      (md, w, rw (attempts, returns) (rw (received-done payload md long) refl), gone)
  attempts-skips_empty (e ∷ empties) (suc left) name request retries wait h message rest payload few
        encodes (reads_empty, empty) reads long has =
      let (md, w, returns, gone) =
        attempt_request-get name request retries wait h e (empties ++ (message ∷ rest)) [] has
          reads_empty in
      let (md', w', returns', gone') =
        attempts-skips_empty empties left name request (retries + 1) wait (record h { world = w })
          message rest payload (omega (arith, few)) encodes empty reads long gone in
      (md', w', rw (attempts, returns) (rw (received-empty md encodes) returns'), gone')

  -- Where no more attempts are left than empty messages wait in front, the request fails, and these
  -- are gone.
  attempts_exhausted :
      (empties : List Bytes) (name : Option Text) (request : Request) (retries : ℕ)
      (wait : Option ℕ) (h : Handler W) (rest : List Bytes)
      → pymqi.codec.encode [] ≡ []
      → All (λ empty. get_payload pymqi fuel empty ≡ ok []) empties
      → waiting h.world ≡ empties ++ rest
      → (w : W) × (attempts pymqi fuel (plain_get name) request (length empties) retries wait h
          ≡ (err (message_error (codes "failed after 5 retries")), record h { world = w }))
        × (waiting w ≡ rest)
  unfolding attempts or_again
  attempts_exhausted [] name request retries wait h rest encodes empty has = (h.world, refl, has)
  attempts_exhausted (e ∷ empties) name request retries wait h rest encodes (reads_empty, empty)
        has =
      let (md, w, returns, gone) =
        attempt_request-get name request retries wait h e (empties ++ rest) [] has reads_empty in
      let (w', returns', gone') =
        attempts_exhausted empties name request (retries + 1) wait (record h { world = w }) rest
          encodes empty gone in
      (w', rw (attempts, returns) (rw (received-empty md encodes) returns'), gone')
