-- ===== src/Amqp/Backend/Tests.antt =====
-- A backend whose server confirms everything, and the theorems at it.
use Prim.Native.String.{String}
use celeries.Base.{ℕ, ◌^◌, ◌≤◌, ◌≡◌, refl, true, false, none, some, [], ◌∷◌, arith, Option}
use celeries.Base.Equality.{nat_eq}
use celeries.Base.Dict.{lookup, insert}
use celeries.Base.Result.{Result, ok, err}
use celeries.Base.Text.{Text, codes, text_eq}
use celeries.Containers.Fifo.{Fifo, list_fifo}
use celeries.Containers.PromiseMap
use celeries.Containers.PromiseMap.Promises.{PromiseState, decide, plain, value, Job, settled_state}
use celeries.Containers.PromiseMap.Orphans.History as MapHistory
use celeries.Base.Set.{add}
use celeries.Containers.PromiseMap.Waiting.{Waits}
use celeries.Containers.ResourcePool
use celeries.Containers.ResourcePool.History as PoolHistory
use celeries.Messages.{ResultMessage, Status}
use celeries.Utility.Events.{timer_delay}
use celeries.Amqp.Channel.{Call, flushed, Server}
use celeries.Amqp.Backend.{
  start_put, put, put_asserted, create_consumer, consumed, assert_backend_queue, Delivery, Codec,
  RpcBackend, create_publish_options, default_timeout, assertion, create, start_consumer, get,
  on_message, finish_job, get_received,
}
use celeries.Amqp.Backend.Delivering.{sending, sending-get, get_received-timeout}
use celeries.Amqp.Backend.History.{
  Reach, new, then_, opens, consumes, answers_assert, answers_consume, Reach-Parts,
}
use celeries.Amqp.Backend.Timers.{Reach-timer_delay}

abbrev F : Fifo ℕ
F = list_fifo

-- Results are numbers, and a buffer is its text; the codec writes the number alone.
abbrev Message : Type 0
Message = ResultMessage ℕ ℕ

abbrev sent : Message
sent = record {
  children = [];
  result = 7;
  status = Status.success;
  task_id = codes "id";
  traceback = none;
}

abbrev codec : Codec Message Text String
codec = record {
  stringify = λ m. m.result ∷ m.task_id;
  from_utf8 = λ s. s;
  to_utf8 = λ s. s;
  parse =
      λ s. elim s [ [] ↦ err "no JSON" | n ∷ id ↦ ok (record sent { result = n; task_id = id }) ];
}

abbrev server : Server Text String
server = record { reply = λ log. ok (codes "tag"); accepts = λ log. ok true }

abbrev error : String → String
error s = s

abbrev day : ℕ
day = 86_400_000

abbrev Backend : Type 0
Backend = RpcBackend F F String Text

abbrev fresh : Backend
fresh = create F F String Text day (codes "queue") none

-- The consumer's channel has been opened and is consumed from.
abbrev opened : Backend
opened = record fresh { channels = ResourcePool.created 1 fresh.channels }

abbrev consuming : Backend
consuming =
    consumed (ok (codes "tag"))
      (create_consumer (ok (codes "queue")) 1 (start_consumer day 1 opened))

consuming-Reach : Reach server codec error day (codes "queue") none consuming
unfolding create ResourcePool.get ResourcePool.create_pool ResourcePool.created
consuming-Reach =
    let started : Reach server codec error day (codes "queue") none (start_consumer day 1 opened) =
      then_ (then_ new (opens 1 fresh (omega arith))) (consumes 1 opened refl) in
    then_ (then_ started (answers_assert 1 (ok (codes "queue")) (start_consumer day 1 opened))) (
      answers_consume (ok (codes "tag"))
        (create_consumer (ok (codes "queue")) 1 (start_consumer day 1 opened)))

Reach-Parts_test :
    MapHistory.Reach error (some (default_timeout day)) consuming.promises
    × PoolHistory.Reach error 2 consuming.channels
Reach-Parts_test = Reach-Parts server codec error day (codes "queue") none consuming consuming-Reach

Reach-timer_delay_example :
    (t : ℕ) × (consuming.promises.timeout ≡ some t) × (2 ^ 31 ≤ t) × (timer_delay t ≡ 1)
Reach-timer_delay_example =
    Reach-timer_delay server codec error day (codes "queue") none consuming (omega arith)
      consuming-Reach

abbrev delivery : Delivery Text
delivery = record { content = 7 ∷ codes "id"; correlation_id = codes "id" }

get_received-timeout_example :
    get_received codec false error (some 5) (some (3, value delivery))
    ≡ get_received codec false error none (some (3, value delivery))
get_received-timeout_example = get_received-timeout codec false error 5 (some (3, value delivery))

-- Another `get` begins while the one for `id` waits, and the delivery for its task comes in first.
abbrev asked : ℕ × Backend
asked = get (codes "id") consuming

abbrev other : Delivery Text
other = record { content = 1 ∷ codes "other"; correlation_id = codes "other" }

abbrev meanwhile : Backend
meanwhile = on_message error (some other) (get (codes "other") asked.1).1

abbrev received : Backend
received = on_message error (some delivery) meanwhile

-- It settles first, too.
abbrev other_job : Job Text (Delivery Text)
other_job = record { key = codes "other"; awaited = plain other; promise = 2 }

abbrev afterwards : Backend
afterwards = finish_job other_job (value other) received

abbrev waiting_job : Job Text (Delivery Text)
waiting_job = record { key = codes "id"; awaited = plain delivery; promise = 3 }

-- The write buffer is full at the second call of a channel, and at no other.
abbrev busy_server : Server Text String
busy_server = record {
  reply = λ log. ok (codes "tag");
  accepts = λ log. elim log [
    | [] ↦ ok true
    | _ ∷ rest ↦ elim rest [
      | [] ↦ ok true
      | _ ∷ more ↦ ok (elim more [ [] ↦ false | _ ∷ _ ↦ true ])
    ]
  ];
}

-- The queue has been asserted on channel 2, and then another `put` begins.
abbrev asserting : Backend
asserting = put day 2 fresh

abbrev answered : Backend
answered = start_put asserting

abbrev put_twice : Backend × Option (Result String Text)
put_twice = put_asserted busy_server codec error sent 1 2 answered

abbrev call : Call Text
call = sending codec (codes "queue") sent

sending-get_example :
    (asserting.log 2 ≡ assertion day (codes "queue") ∷ [])
    × (put_twice.0.log 2 ≡ call ∷ call ∷ assertion day (codes "queue") ∷ [])
    × (put_twice.1 ≡ some (ok flushed))
    × Waits (codes "id") asked.0 asked.1.promises
    × (received.promises.jobs ≡ waiting_job ∷ meanwhile.promises.jobs)
    × (settled_state (finish_job waiting_job (value delivery) afterwards).promises.store asked.0
        ≡ PromiseState.fulfilled delivery)
    × (get_received codec false error (some 5) (some (9, value delivery)) ≡ some (9, value sent))
unfolding create start_consumer create_consumer consumed create_publish_options assertion
    assert_backend_queue start_put put get on_message finish_job ResourcePool.get
    ResourcePool.create_pool ResourcePool.arrive add PromiseMap.create PromiseMap.get
    PromiseMap.resolve PromiseMap.finish_job lookup insert decide
sending-get_example =
    sending-get codec error busy_server day 1 1 2 (codes "tag") fresh answered sent delivery
      consuming meanwhile afterwards false (some 5) 9 refl refl refl refl (refl, tt) refl
      (omega arith) refl refl refl (refl, refl, omega arith) refl
