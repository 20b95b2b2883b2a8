-- ===== src/Task.antt =====
-- src/task.ts: the class `Task`. What an options object leaves out is `none`. `uuid.v4`, the date's
-- text, the process and the packer's platform are parameters, and so are the brokers.
pub mod Body
pub mod Publishing
pub mod Tests
use celeries.Base.{
  ℕ, zero, suc, Bool, true, false, Option, none, some, List, [], ◌∷◌, ◌++◌, if◌then◌else◌,
}
use celeries.Base.Result.{Result, ok, err}
use celeries.Base.Text.{Text, codes}
use celeries.Errors.{Thrown}
use celeries.Messages.{
  ContentTypeMime, ContentEncodingMime, CompressionMime, TaskDeliveryInfo, TaskProperties,
  TaskHeaders, TaskMessage,
}
use celeries.Packer.{
  Platform, Packer, CompressorType, gzip, identity, zlib, EncoderType, base64, plaintext,
  SerializerType, json, yaml, pack, create_packer,
}

pub data DeliveryMode : Type 0 where
  persistent transient : DeliveryMode

-- `BE` are the backends and `BR` the brokers.
pub record TaskOptions (BE BR : Type 0) : Type 0 where
  pub app_id : Text
  pub backend : BE
  pub brokers : List BR
  pub delivery_mode : Option DeliveryMode
  pub hard_time_limit : Option ℕ
  pub name : Text
  pub queue : Option Text
  pub soft_time_limit : Option ℕ

-- The broker is `undefined` where the strategy has given none.
pub record Task (BE BR : Type 0) : Type 0 where
  pub app_id : Text
  pub backend : BE
  pub broker : Option BR
  pub brokers : List BR
  pub delivery_mode : DeliveryMode
  pub name : Text
  pub queue : Text
  pub time_limit : Option ℕ × Option ℕ

-- The time of an `eta` is its text, `Date#toISOString`. `D` is the data of arguments.
pub record TaskApplyOptions (D : Type 0) : Type 0 where
  pub args : D
  pub compression : Option CompressorType
  pub eta : Option Text
  pub expires : Option Text
  pub ignore_result : Option Bool
  pub kwargs : D
  pub priority : Option ℕ
  pub queue : Option Text
  pub serializer : Option SerializerType

-- The default of a parameter.
abbrev pub default {ℓ} : {A : Type ℓ} → A → Option A → A
default a none = a
default a (some x) = x

get_time_limit : Option ℕ → Option ℕ → Option ℕ × Option ℕ
get_time_limit (some soft) (some hard) = (some soft, some hard)
get_time_limit (some soft) none = (some soft, none)
get_time_limit none (some hard) = (none, some hard)
get_time_limit none none = (none, none)

get_delivery_mode : DeliveryMode → ℕ
get_delivery_mode transient = 1
get_delivery_mode persistent = 2

select_encoder : CompressorType → EncoderType
select_encoder identity = plaintext
select_encoder gzip = base64
select_encoder zlib = base64

-- As the Python client does.
real_compressor : CompressorType → CompressorType
real_compressor gzip = zlib
real_compressor identity = identity
real_compressor zlib = zlib

get_content_type_mime : SerializerType → ContentTypeMime
get_content_type_mime json = ContentTypeMime.json
get_content_type_mime yaml = ContentTypeMime.yaml

get_encoding_mime : EncoderType → ContentEncodingMime
get_encoding_mime base64 = ContentEncodingMime.base64
get_encoding_mime plaintext = ContentEncodingMime.utf8

-- What a task takes from Node and the libraries: `array` makes an array of its items, and `embed` is
-- the object of callbacks, chain, chord and errbacks, all null.
pub record Host (D B : Type 0) : Type 0 where
  pub platform : Platform D B
  pub array : List D → D
  pub embed : D
  pub origin : Text

module _ {D B : Type 0} (host : Host D B) where
  create_task_packer : SerializerType → CompressorType → Packer D B × EncoderType
  unfolding select_encoder real_compressor
  create_task_packer serializer compressor =
      let encoder = select_encoder compressor in
      (create_packer host.platform serializer (real_compressor compressor) encoder, encoder)

  pack_body : D → D → Packer D B → Text
  pack_body args kwargs packer = pack packer (host.array (args ∷ kwargs ∷ host.embed ∷ []))

  module _ {BE BR : Type 0} where
    create_headers :
        Task BE BR → D → D → CompressorType → Option Text → Option Text → Text → TaskHeaders
    create_headers task args kwargs compression eta expires id =
        let base : TaskHeaders = record {
          group = none;
          id = id;
          lang = codes "py";
          parent_id = none;
          root_id = id;
          task = task.name;
          argsrepr = some (host.platform.json_stringify args);
          compression = none;
          eta = some eta;
          expires = some expires;
          kwargsrepr = some (host.platform.json_stringify kwargs);
          meth = none;
          origin = some host.origin;
          retries = some 0;
          shadow = some none;
          timelimit = some task.time_limit;
        } in
        elim compression [
          | identity ↦ base
          | _ ↦ record base { compression = some CompressionMime.zlib }
        ]

    create_properties : Task BE BR → ℕ → EncoderType → Text → ℕ → Text → TaskProperties
    unfolding get_encoding_mime
    create_properties task delivery_mode encoding id priority queue = record {
      body_encoding = get_encoding_mime encoding;
      correlation_id = id;
      delivery_info = record { exchange = []; routing_key = queue };
      delivery_mode = delivery_mode;
      delivery_tag = codes "celery";
      priority = priority;
      queue = queue;
      reply_to = some task.app_id;
    }

    -- The message that `applyAsync` publishes, for the identifier that `Uuid.v4` has made.
    pub publish_options : Task BE BR → TaskApplyOptions D → Text → TaskMessage
    unfolding create_task_packer pack_body create_headers create_properties get_content_type_mime
        get_delivery_mode
    publish_options task options id =
        let compression = default identity options.compression in
        let serializer = default json options.serializer in
        let (packer, encoding) = create_task_packer serializer compression in
        record {
          body = pack_body options.args options.kwargs packer;
          content_encoding = get_encoding_mime encoding;
          content_type = get_content_type_mime serializer;
          headers =
              create_headers task options.args options.kwargs compression options.eta
                options.expires id;
          properties =
              create_properties task (get_delivery_mode task.delivery_mode) encoding id
                (default 0 options.priority) (default task.queue options.queue);
        }

-- The backend of a result: `new NullBackend()`, or that of the task.
pub data ResultBackend (BE : Type 0) : Type 0 where
  null_backend : ResultBackend BE
  backend_of : BE → ResultBackend BE

-- The fields of a `Result` besides its promise.
pub record ResultHandle (BE : Type 0) : Type 0 where
  pub task_id : Text
  pub backend : ResultBackend BE

-- What a call of `publish` comes to: it throws at once, or returns a promise.
pub data Published : Type 0 where
  threw : Published
  promised : Result Thrown Text → Published

abbrev pub publish_by :
    {BR : Type 0} → (BR → TaskMessage → Published) → Option BR → TaskMessage → Published
publish_by publish none message = threw
publish_by publish (some b) message = publish b message

-- A `FailoverStrategy` with the variables that it closes over in `S`.
abbrev pub Strategy : Type 0 → Type 0 → Type 0
Strategy S BR = S → List BR → Option BR × S

module _ {S BE BR : Type 0} (strategy : Strategy S BR) where
  pub create : TaskOptions BE BR → S → Task BE BR × S
  unfolding get_time_limit
  create options s =
      let (broker, s') = strategy s options.brokers in
      (
        record {
          app_id = options.app_id;
          backend = options.backend;
          broker = broker;
          brokers = options.brokers;
          delivery_mode = default persistent options.delivery_mode;
          name = options.name;
          queue = default (codes "celery") options.queue;
          time_limit = get_time_limit options.soft_time_limit options.hard_time_limit;
        },
        s',
      )

  module _ (publish : BR → TaskMessage → Published) where
    -- The result, the broker of the task from then on, and the strategy's state; on fuel. The
    -- promise is returned without being awaited, so that only a call that throws is caught.
    pub try_publish :
        ℕ → TaskMessage → Task BE BR → S → Option (Result Thrown Text × Task BE BR × S)
    try_publish zero message task s = none
    try_publish (suc fuel) message task s = elim (publish_by publish task.broker message) [
      | promised outcome ↦ some (outcome, task, s)
      | threw ↦
          let (broker, s') = strategy s task.brokers in
          try_publish fuel message (record task { broker = broker }) s'
    ]

  module _ {D B : Type 0} (host : Host D B) (publish : BR → TaskMessage → Published) where
    -- The result that is returned, and what `tryPublish`, which is not awaited, comes to.
    pub apply_async :
        ℕ
        → Task BE BR
        → TaskApplyOptions D
        → Text
        → S
        → ResultHandle BE × Option (Result Thrown Text × Task BE BR × S)
    unfolding try_publish publish_options
    apply_async fuel task options id s =
        let backend : ResultBackend BE =
          if default false options.ignore_result then null_backend else backend_of task.backend in
        (
          record { task_id = id; backend = backend },
          try_publish publish fuel (publish_options host task options id) task s,
        )
