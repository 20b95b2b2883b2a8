-- ===== src/Amqp/Channel.antt =====
-- src/amqp/: the calls of an amqplib channel that the broker and the backend make, and the loop that
-- writes a message. The server and the library are a parameter, which answers the last call from all
-- the calls made on the channel. A list of calls has the last one first.
pub mod Writing
use celeries.Base.{ℕ, zero, suc, Bool, true, false, Option, none, some, List, [], ◌∷◌}
use celeries.Base.Result.{Result, ok, err}
use celeries.Base.Text.{Text, codes}
use celeries.Messages.{ContentTypeMime, ContentEncodingMime, TaskHeaders}

pub record QueueOptions : Type 0 where
  pub auto_delete : Bool
  pub durable : Bool
  pub expires : ℕ

pub record PublishOptions : Type 0 where
  pub content_encoding : ContentEncodingMime
  pub content_type : ContentTypeMime
  pub correlation_id : Text
  pub delivery_mode : Option ℕ
  pub headers : Option TaskHeaders
  pub persistent : Option Bool
  pub priority : ℕ
  pub reply_to : Option Text

-- `B` stands for `Buffer`.
pub data Call (B : Type 0) : Type 0 where
  assert_queue : Text → Option QueueOptions → Call B
  assert_exchange : Text → Text → Call B
  publish : Text → Text → B → PublishOptions → Call B
  send_to_queue : Text → B → PublishOptions → Call B
  consume : Text → Bool → Call B
  cancel : Text → Call B
  close : Call B

-- `reply` is what the promise of a call comes to, and `accepts` what a call that writes gives: false
-- for a full write buffer.
pub record Server (B E : Type 0) : Type 0 where
  pub reply : List (Call B) → Result E Text
  pub accepts : List (Call B) → Result E Bool

abbrev pub flushed : Text
flushed = codes "flushed to write buffer"

-- `while (!write()) await promisifyEvent(channel, "drain")`, where `drains` events "drain" come. The
-- result is `none` while the loop waits for one more.
pub write_until :
    {B E : Type 0}
    → Server B E
    → Call B
    → ℕ
    → List (Call B)
    → Option (Result E Text) × List (Call B)
write_until server call zero log = elim (server.accepts (call ∷ log)) [
  | err x ↦ (some (err x), call ∷ log)
  | ok written ↦ elim written [
    | true ↦ (some (ok flushed), call ∷ log)
    | false ↦ (none, call ∷ log)
  ]
]
write_until server call (suc drains) log = elim (server.accepts (call ∷ log)) [
  | err x ↦ (some (err x), call ∷ log)
  | ok written ↦ elim written [
    | true ↦ (some (ok flushed), call ∷ log)
    | false ↦ write_until server call drains (call ∷ log)
  ]
]
