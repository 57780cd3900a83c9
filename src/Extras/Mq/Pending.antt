-- ===== src/Extras/Mq/Pending.antt =====
-- No request leaves a message half received: whatever the outcome, a unit of work that a get has begun
-- is committed or backed out.
use grizzly.Common.{ℕ, ◌≡◌, Bool, false, Option, Result, ok, err}
use grizzly.Common.Int.{ℤ}
use grizzly.Common.Text.{Text}
use grizzly.Extras.Messages.{Failure}
use grizzly.Extras.Mq.Steps.{Handler, Act, and_then, ◌>>=◌, handled_by, attempt, after_all}
use grizzly.Extras.Mq.{Options, Md, Gmo, Content, Pymqi}

-- The units of work of a queue manager: whether one is pending in a world.
pub record UnitsOfWork {W Q M D : Type 0} (pymqi : Pymqi W Q M D) (pending : W → Bool)
    : Type 0 where
  pub connect_keeps :
      (options : Options) (w : W)
      → pending w ≡ false
      → pending (pymqi.connect_with_options options w).1 ≡ false
  pub disconnect_keeps : (w : W) → pending w ≡ false → pending (pymqi.disconnect w).1 ≡ false
  pub open_keeps :
      (name : Option Text) (browsing : Bool) (w : W)
      → pending w ≡ false
      → pending (pymqi.open_queue name browsing w).1 ≡ false
  pub close_keeps :
      (queue : Q) (w : W) → pending w ≡ false → pending (pymqi.close_queue queue w) ≡ false
  pub put_keeps :
      (queue : Q) (content : Content) (md : Md M) (w : W)
      → pending w ≡ false
      → pending (pymqi.put queue content md w).1 ≡ false
  pub browse_keeps :
      (queue : Q) (size : Option ℤ) (md : Md M) (gmo : Gmo) (w : W)
      → gmo.syncpoint ≡ false
      → pending w ≡ false
      → pending (pymqi.get queue size md gmo w).1 ≡ false
  pub sleep_keeps : (time : ℕ) (w : W) → pending w ≡ false → pending (pymqi.sleep time w) ≡ false
  pub commit_ends : (w w' : W) → pymqi.commit w ≡ (ok tt, w') → pending w' ≡ false
  pub backout_ends : (w : W) → pending (pymqi.backout w).1 ≡ false

module _ {W : Type 0} (pending : W → Bool) where
  -- A step that leaves nothing pending where nothing was.
  abbrev pub Keeps : {A : Type 0} → Act W A → Type 0
  Keeps act = (h : Handler W) → pending h.world ≡ false → pending (act h).1.world ≡ false

  -- A step that leaves nothing pending where it returns.
  abbrev pub IsSettled : {A : Type 0} → Result Failure A × Handler W → Type 0
  IsSettled (ok a, h) = pending h.world ≡ false
  IsSettled (err e, h) = Unit

  module _ {A B : Type 0} where
    pub and_then-Keeps :
        (result : Result Failure A × Handler W) (rest : A → Act W B)
        → pending result.1.world ≡ false
        → ((a : A) → Keeps (rest a))
        → pending (and_then result rest).1.world ≡ false
    and_then-Keeps (ok a, h) rest settled keeps = keeps a h settled
    and_then-Keeps (err e, h) rest settled keeps = settled

    pub >>=-Keeps :
        (act : Act W A) (rest : A → Act W B)
        → Keeps act
        → ((a : A) → Keeps (rest a))
        → Keeps (act >>= rest)
    >>=-Keeps act rest first keeps h settled = and_then-Keeps (act h) rest (first h settled) keeps

    and_then-IsSettled :
        (result : Result Failure A × Handler W) (rest : A → Act W B)
        → ((a : A) (h : Handler W) → IsSettled (rest a h))
        → IsSettled (and_then result rest)
    and_then-IsSettled (ok a, h) rest settles = settles a h
    and_then-IsSettled (err e, h) rest settles = tt

    pub >>=-IsSettled :
        (act : Act W A) (rest : A → Act W B)
        → ((a : A) (h : Handler W) → IsSettled (rest a h))
        → (h : Handler W) → IsSettled ((act >>= rest) h)
    >>=-IsSettled act rest settles h = and_then-IsSettled (act h) rest settles

  module _ {A : Type 0} where
    handled_by-Keeps :
        (result : Result Failure A × Handler W) (handler : Failure → Act W A)
        → pending result.1.world ≡ false
        → ((e : Failure) → Keeps (handler e))
        → pending (handled_by result handler).1.world ≡ false
    handled_by-Keeps (ok a, h) handler settled keeps = settled
    handled_by-Keeps (err e, h) handler settled keeps = keeps e h settled

    pub attempt-Keeps :
        (act : Act W A) (handler : Failure → Act W A)
        → Keeps act
        → ((e : Failure) → Keeps (handler e))
        → Keeps (attempt act handler)
    attempt-Keeps act handler first keeps h settled =
        handled_by-Keeps (act h) handler (first h settled) keeps

    handled_by-settles :
        (result : Result Failure A × Handler W) (handler : Failure → Act W A)
        → IsSettled result
        → ((e : Failure) (h : Handler W) → pending (handler e h).1.world ≡ false)
        → pending (handled_by result handler).1.world ≡ false
    handled_by-settles (ok a, h) handler settled settles = settled
    handled_by-settles (err e, h) handler settled settles = settles e h

    -- A step that settles where it returns, with a handler that settles in any case.
    pub attempt-settles :
        (act : Act W A) (handler : Failure → Act W A)
        → ((h : Handler W) → IsSettled (act h))
        → ((e : Failure) (h : Handler W) → pending (handler e h).1.world ≡ false)
        → Keeps (attempt act handler)
    attempt-settles act handler first settles h settled =
        handled_by-settles (act h) handler (first h) settles

    pub after_all-Keeps :
        (act : Act W A) (change : W → W)
        → ((w : W) → pending w ≡ false → pending (change w) ≡ false)
        → Keeps act
        → Keeps (after_all act change)
    after_all-Keeps act change keeps first h settled = keeps (act h).1.world (first h settled)
