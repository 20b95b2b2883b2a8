-- ===== src/Messages.antt =====
-- src/messages.ts: the messages of the protocol. A field that may be absent or null is an option of
-- an option.
use celeries.Base.{ℕ, Option, List}
use celeries.Base.Text.{Text}

pub data Status : Type 0 where
  failure pending received retry revoked started success : Status

pub data ContentTypeMime : Type 0 where
  json yaml : ContentTypeMime

pub data ContentEncodingMime : Type 0 where
  utf8 base64 : ContentEncodingMime

pub data CompressionMime : Type 0 where
  zlib : CompressionMime

-- `children` are of any type `C`.
pub record ResultMessage (C T : Type 0) : Type 0 where
  pub children : List C
  pub result : T
  pub status : Status
  pub task_id : Text
  pub traceback : Option Text

pub record TaskDeliveryInfo : Type 0 where
  pub exchange : Text
  pub routing_key : Text

pub record TaskProperties : Type 0 where
  pub body_encoding : ContentEncodingMime
  pub correlation_id : Text
  pub delivery_info : TaskDeliveryInfo
  pub delivery_mode : ℕ
  pub delivery_tag : Text
  pub priority : ℕ
  pub queue : Text
  pub reply_to : Option Text

pub record TaskHeaders : Type 0 where
  pub group : Option Text
  pub id : Text
  pub lang : Text
  pub parent_id : Option Text
  pub root_id : Text
  pub task : Text
  pub argsrepr : Option Text
  pub compression : Option CompressionMime
  pub eta : Option (Option Text)
  pub expires : Option (Option Text)
  pub kwargsrepr : Option Text
  pub meth : Option Text
  pub origin : Option Text
  pub retries : Option ℕ
  pub shadow : Option (Option Text)
  pub timelimit : Option (Option ℕ × Option ℕ)

pub record TaskMessage : Type 0 where
  pub body : Text
  pub content_encoding : ContentEncodingMime
  pub content_type : ContentTypeMime
  pub headers : TaskHeaders
  pub properties : TaskProperties
