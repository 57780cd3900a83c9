-- ===== src/Extras/Mq/Steps.antt =====
-- A step of the handler: it may raise, and it changes the handler and the world around it.
use grizzly.Common.{ℕ, Bool, Option, Result, ok, err}
use grizzly.Common.Text.{Text}
use grizzly.Extras.Messages.{Failure}

-- AsyncMessageQueueHandler; `connected` is that `qmgr` is not None.
pub record Handler (W : Type 0) : Type 0 where
  pub connected : Bool
  pub message_wait : Option ℕ
  pub header_type : Option Text
  pub world : W

abbrev pub Act : Type 0 → Type 0 → Type 0
Act W A = Handler W → Result Failure A × Handler W

module _ {W A B : Type 0} where
  abbrev pub and_then : Result Failure A × Handler W → (A → Act W B) → Result Failure B × Handler W
  and_then (ok a, h) rest = rest a h
  and_then (err e, h) rest = (err e, h)

  infixl 5 ◌>>=◌
  abbrev pub ◌>>=◌ : Act W A → (A → Act W B) → Act W B
  (act >>= rest) h = and_then (act h) rest

module _ {W A : Type 0} where
  abbrev pub return : A → Act W A
  return a h = (ok a, h)

  abbrev pub raise : Failure → Act W A
  raise e h = (err e, h)

  abbrev pub handled_by :
      Result Failure A × Handler W → (Failure → Act W A) → Result Failure A × Handler W
  handled_by (ok a, h) handler = (ok a, h)
  handled_by (err e, h) handler = handler e h

  -- try act except: handler
  abbrev pub attempt : Act W A → (Failure → Act W A) → Act W A
  attempt act handler h = handled_by (act h) handler

  -- try act finally: the change of the world
  abbrev pub after_all : Act W A → (W → W) → Act W A
  after_all act change h = ((act h).0, record (act h).1 { world = change (act h).1.world })

  -- A call of pymqi.
  abbrev pub call : (W → Result Failure A × W) → Act W A
  call op h = ((op h.world).0, record h { world = (op h.world).1 })

module _ {W : Type 0} where
  abbrev pub get_state : Act W (Handler W)
  get_state h = (ok h, h)

  abbrev pub set_connected : Bool → Act W Unit
  set_connected b h = (ok tt, record h { connected = b })
