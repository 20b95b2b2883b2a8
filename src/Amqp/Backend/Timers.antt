-- ===== src/Amqp/Backend/Timers.antt =====
-- How long the backend keeps a result.
use Prim.Native.String.{String}
use celeries.Base.{ℕ, ◌^◌, ◌≤◌, ◌≡◌, Option, some, arith}
use celeries.Base.Equality.{Eq}
use celeries.Base.Text.{Text, text_eq}
use celeries.Containers.Fifo.{Fifo}
use celeries.Containers.PromiseMap.Timeouts.{Reach-timeout}
use celeries.Messages.{ResultMessage}
use celeries.Utility.Events.{timer_delay}
use celeries.Amqp.Uri.{AmqpOptions}
use celeries.Amqp.Channel.{Server}
use celeries.Amqp.Backend.{Codec, RpcBackend, default_timeout}
use celeries.Amqp.Backend.History.{Reach, Reach-Parts}

-- Where a day has at least 86,400,000 milliseconds, the timeout of the backend's map is 2^31 or more
-- at all times, whatever happens to the backend: Node lets a timer with this timeout run for one
-- millisecond.
pub Reach-timer_delay :
    {T : Type 0} ⦃e : Eq T⦄ {F : Fifo T} {G : Fifo ℕ} {C M B E : Type 0} (server : Server B E)
    (codec : Codec (ResultMessage C M) B E) (error : String → E) (day : ℕ) (routing_key : Text)
    (options : Option AmqpOptions) (b : RpcBackend F G E B)
    → 86_400_000 ≤ day
    → Reach server codec error day routing_key options b
    → (t : ℕ) × (b.promises.timeout ≡ some t) × (2 ^ 31 ≤ t) × (timer_delay t ≡ 1)
unfolding default_timeout timer_delay
Reach-timer_delay server codec error day routing_key options b long r = (
  default_timeout day,
  Reach-timeout error (Reach-Parts server codec error day routing_key options b r).0,
  omega arith,
  ground arith,
)
