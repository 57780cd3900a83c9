-- ===== src/Extras/Mq/Transactions.antt =====
-- Whatever a request asks for and however it ends, the handler leaves no unit of work pending.
use grizzly.Common.{ℕ, Bool, Option, none, some, list_eq, nat_eq}
use grizzly.Common.Dict.{Dict}
use grizzly.Common.Text.{Text}
use grizzly.Extras.Messages.{Request, Method}
use grizzly.Extras.Mq.Pending.{UnitsOfWork, Keeps}
use grizzly.Extras.Mq.Steps.{Handler}
use grizzly.Extras.Mq.{Pymqi}

module _ {W Q M D : Type 0} (pymqi : Pymqi W Q M D) (pending : W → Bool)
    (units : UnitsOfWork pymqi pending) (fuel : ℕ) where
  MethodKeeps : Method (Handler W) (Text × M) → Type 0
  MethodKeeps method = (request : Request) → Keeps pending (method request)

  abbrev FoundKeeps : Option (Method (Handler W) (Text × M)) → Type 0
  FoundKeeps none = Unit
  FoundKeeps (some method) = MethodKeeps method
