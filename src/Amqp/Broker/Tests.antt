-- ===== src/Amqp/Broker/Tests.antt =====
-- A broker whose server confirms everything and finds no room at the first write, and the theorem at
-- it.
use Prim.Native.String.{String}
use celeries.Base.{ℕ, ◌≡◌, refl, true, false, none, some, [], ◌∷◌, arith, inl}
use celeries.Base.Equality.{nat_eq}
use celeries.Base.Result.{ok}
use celeries.Base.Set.{add}
use celeries.Base.Text.{Text, codes}
use celeries.Containers.Fifo.{Fifo, list_fifo}
use celeries.Containers.ResourcePool
use celeries.Containers.ResourcePool.{ResourcePool, return}
use celeries.Messages.{TaskMessage, ContentEncodingMime, ContentTypeMime}
use celeries.Amqp.Channel.{Server, flushed}
use celeries.Amqp.Channel.Writing.{written}
use celeries.Amqp.Broker.{AmqpBroker, create, start_publish, publish, set_log, publish_confirmed}
use celeries.Amqp.Broker.Publishing.{asserted, publishing, publish-written}

abbrev F : Fifo ℕ
F = list_fifo

abbrev message : TaskMessage
message = record {
  body = codes "x";
  content_encoding = ContentEncodingMime.utf8;
  content_type = ContentTypeMime.json;
  headers = record {
    group = none;
    id = codes "id";
    lang = codes "js";
    parent_id = none;
    root_id = codes "id";
    task = codes "add";
    argsrepr = none;
    compression = none;
    eta = none;
    expires = none;
    kwargsrepr = none;
    meth = none;
    origin = none;
    retries = none;
    shadow = none;
    timelimit = none;
  };
  properties = record {
    body_encoding = ContentEncodingMime.utf8;
    correlation_id = codes "id";
    delivery_info = record { exchange = []; routing_key = codes "celery" };
    delivery_mode = 2;
    delivery_tag = codes "tag";
    priority = 0;
    queue = codes "celery";
    reply_to = none;
  };
}

-- One call asserts the queue, the next finds the buffer full, and the third does not.
abbrev server : Server Text String
server = record {
  reply = λ log. ok [];
  accepts = λ log. elim log [
    | [] ↦ ok false
    | _ ∷ first ↦ elim first [
      | [] ↦ ok false
      | _ ∷ second ↦ elim second [ [] ↦ ok false | _ ∷ _ ↦ ok true ]
    ]
  ];
}

abbrev from : Text → ContentEncodingMime → Text
from s e = s

abbrev error : String → String
error s = s

abbrev broker : AmqpBroker F F String Text
broker = start_publish (create F F String Text none)

-- Another message comes for a channel while the assertion of this one is on its way.
abbrev waiting : AmqpBroker F F String Text
waiting = start_publish (publish message 1 broker)

publish-written_example :
    ((publish message 1 broker).log 1 ≡ asserted server from message (broker.log 1))
    × ((publish message 1 broker).channels ≡ ResourcePool.arrive 1 broker.channels)
    × (q : ResourcePool F F String) × (return error 1 waiting.channels ≡ ok q)
    × (publish_confirmed server from error message 1 1 waiting ≡ (
      record waiting {
        channels = q;
        log = set_log waiting.log 1 (
            written server
              (publishing server from message)
              2
              (asserted server from message (broker.log 1)));
      },
      some (ok flushed),
    ))
unfolding create start_publish publish ResourcePool.get ResourcePool.arrive ResourcePool.create_pool
    add
publish-written_example =
    publish-written server from error message 1 1 1 broker waiting refl refl (([], refl), inl refl)
      (refl, tt) refl (omega arith)
