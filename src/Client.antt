-- ===== src/Client.antt =====
-- src/client.ts: the class `Client` and its failover strategy.
pub mod RoundRobin
use celeries.Base.{
  ℕ, zero, suc, ◌+◌, ◌%◌, Option, none, some, List, [], ◌∷◌, ◌++◌, map, length, get_elem?,
}
use celeries.Base.Text.{Text}
use celeries.Task.{DeliveryMode, TaskOptions, Task, Strategy, create}

pub record TaskDefaults : Type 0 where
  pub delivery_mode : Option DeliveryMode
  pub hard_time_limit : Option ℕ
  pub queue : Option Text
  pub soft_time_limit : Option ℕ

pub record Client (BE BR : Type 0) : Type 0 where
  pub backend : BE
  pub brokers : List BR
  pub id : Text
  pub task_defaults : TaskDefaults

-- The closure of `getRoundRobinStrategy`; its state is `index`. The remainder by 0 gives no index
-- into the brokers, of which there are none then.
unfoldable pub get_round_robin_strategy : {BR : Type 0} → ℕ → Strategy ℕ BR
get_round_robin_strategy size index brokers = (get_elem? brokers index, (index + 1) % size)

module _ {S BE BR : Type 0} (strategy : Strategy S BR) where
  create_task : Client BE BR → Text → S → Task BE BR × S
  create_task client name = create strategy (record {
    app_id = client.id;
    backend = client.backend;
    brokers = client.brokers;
    delivery_mode = client.task_defaults.delivery_mode;
    hard_time_limit = client.task_defaults.hard_time_limit;
    name = name;
    queue = client.task_defaults.queue;
    soft_time_limit = client.task_defaults.soft_time_limit;
  })

-- What `disconnect` or `end` invokes, in order: the brokers', and then the backend's.
data Party (BE BR : Type 0) : Type 0 where
  a_broker : BR → Party BE BR
  the_backend : BE → Party BE BR

disconnect_or_end_all : {BE BR : Type 0} → List BR → BE → List (Party BE BR)
disconnect_or_end_all brokers backend = map a_broker brokers ++ the_backend backend ∷ []
