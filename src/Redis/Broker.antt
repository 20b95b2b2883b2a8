-- ===== src/Redis/Broker.antt =====
-- src/redis/broker.ts: the class `RedisBroker`.
use celeries.Base.{Option, none, some, List, [], ◌∷◌}
use celeries.Base.Result.{Result, ok, err}
use celeries.Base.Text.{Text, codes}
use celeries.Messages.{TaskMessage}
use celeries.Redis.Uri.{text}
use celeries.Redis.Options.{RedisOptions, Client, create_client, default_redis_options}
use celeries.Redis.Connection.{Command, lpush, quit, Server}

pub record RedisBroker : Type 0 where
  pub options : RedisOptions
  pub connection : Client
  pub log : List Command

-- `options || DEFAULT_REDIS_OPTIONS`.
abbrev pub options_or_default : Option RedisOptions → RedisOptions
options_or_default none = default_redis_options
options_or_default (some options) = options

pub create : Option RedisOptions → RedisBroker
create options = record {
  options = options_or_default options;
  connection =
      create_client (options_or_default options) (some ((codes "keyPrefix", text []) ∷ []));
  log = [];
}

pub disconnect : RedisBroker → RedisBroker
disconnect b = record b { log = Command.disconnect ∷ b.log }

-- `quit`, and `disconnect` once it has been answered.
pub end : {E : Type 0} → Server E → RedisBroker → RedisBroker × Result E (Unit {0})
end server b = elim (server (quit ∷ b.log)) [
  | err x ↦ (record b { log = quit ∷ b.log }, err x)
  | ok _ ↦ (record b { log = Command.disconnect ∷ quit ∷ b.log }, ok tt)
]

-- `stringify` is `JSON.stringify`.
pub publish :
    {E : Type 0}
    → Server E
    → (TaskMessage → Text)
    → TaskMessage
    → RedisBroker
    → RedisBroker × Result E (Option Text)
publish server stringify message b =
    let log' = lpush message.properties.queue (stringify message) ∷ b.log in
    (record b { log = log' }, server log')
