-- ===== src/Task/Tests.antt =====
-- A platform that reads back what it writes, and the theorems on it.
use celeries.Base.{
  ℕ, zero, suc, ◌≡◌, refl, ap, Bool, true, false, none, some, List, [], ◌∷◌, ◌==◌, map, arith,
  if◌then◌else◌,
}
use celeries.Base.Result.{err}
use celeries.Base.Text.{Text, codes, is_well_formed}
use celeries.Errors.{error}
use celeries.Messages.{TaskMessage}
use celeries.Packer.{Platform, yaml, gzip, zlib, base64, pack, unpack, create_packer}
use celeries.Packer.RoundTrip.{ReadsBack, unpack-pack}
use celeries.Client.{get_round_robin_strategy}
use celeries.Client.RoundRobin.{turns, turns-get_round_robin_strategy}
use celeries.Task.{
  persistent, Task, TaskApplyOptions, Host, Published, threw, promised, publish_options,
  apply_async,
}
use celeries.Task.Body.{read_message, read_message-publish_options}
use celeries.Task.Publishing.{after, apply_async-after}

abbrev behind_first : Text → Text
behind_first [] = []
behind_first (_ ∷ s) = s

-- Data are lists of truth values, written in digits, and a buffer is its text. Compression puts a
-- mark in front.
abbrev Data : Type 0
Data = List Bool

abbrev written : Data → Text
written [] = []
written (b ∷ bs) = (if b then b'1' else b'0') ∷ written bs

abbrev read : Text → Data
read [] = []
read (c ∷ s) = (c == b'1') ∷ read s

read-written : (d : Data) → read (written d) ≡ d
read-written [] = refl
read-written (true ∷ d) = ap (◌∷◌ true) (read-written d)
read-written (false ∷ d) = ap (◌∷◌ false) (read-written d)

written-formed : (d : Data) → is_well_formed (written d) ≡ true
written-formed [] = refl
written-formed (true ∷ d) = written-formed d
written-formed (false ∷ d) = written-formed d

abbrev node : Platform Data Text
node = record {
  buffer_from = λ b. b;
  gzip_sync = λ b. 1 ∷ b;
  deflate_sync = λ b. 2 ∷ b;
  unzip_sync = behind_first;
  to_utf8 = λ b. b;
  from_utf8 = λ s. s;
  to_base64 = λ b. b;
  from_base64 = λ s. s;
  json_stringify = written;
  json_parse = read;
  yaml_dump = written;
  yaml_load = read;
}

node-ReadsBack : ReadsBack node
node-ReadsBack = record {
  copies = λ b. refl;
  unzips = λ b. refl;
  inflates = λ b. refl;
  base64s = λ b. refl;
  utf8s = λ s formed. refl;
  json_texts = written-formed;
  yaml_texts = written-formed;
  jsons = read-written;
  yamls = read-written;
}

-- The worker reads what the mark 2 stands before.
abbrev inflate : Text → Text
inflate [] = []
inflate (c ∷ s) = if c == 2 then s else []

abbrev first : List Data → Data
first [] = []
first (x ∷ xs) = x

abbrev host : Host Data Text
host = record { platform = node; array = first; embed = []; origin = codes "1@host" }

unpack-pack_example :
    unpack
      (create_packer node yaml zlib base64)
      (pack (create_packer node yaml zlib base64) (true ∷ []))
    ≡ true ∷ []
unpack-pack_example = unpack-pack node node-ReadsBack yaml zlib base64 (true ∷ []) tt

abbrev task : Task ℕ ℕ
task = record {
  app_id = codes "app";
  backend = 0;
  broker = some 0;
  brokers = 0 ∷ 1 ∷ [];
  delivery_mode = persistent;
  name = codes "add";
  queue = codes "celery";
  time_limit = (none, none);
}

abbrev options : TaskApplyOptions Data
options = record {
  args = true ∷ false ∷ [];
  compression = some gzip;
  eta = none;
  expires = none;
  ignore_result = none;
  kwargs = [];
  priority = none;
  queue = none;
  serializer = none;
}

read_message-publish_options_example :
    read_message node inflate (publish_options host task options (codes "id"))
    ≡ first ((true ∷ false ∷ []) ∷ [] ∷ [] ∷ [])
read_message-publish_options_example =
    read_message-publish_options host inflate node-ReadsBack (λ b. refl) task options (codes "id")

-- The first broker is closed, and the second one refuses the message.
abbrev publish : ℕ → TaskMessage → Published
publish zero m = threw
publish (suc n) m = promised (err (error "refused"))

apply_async-after_example :
    (apply_async (get_round_robin_strategy 2) host publish 2 task options (codes "id") 1).1
    ≡ some (
      err (error "refused"),
      (after (get_round_robin_strategy 2) 1 task 1).0,
      (after (get_round_robin_strategy 2) 1 task 1).1,
    )
unfolding get_round_robin_strategy
apply_async-after_example =
    apply_async-after (get_round_robin_strategy 2) host publish 1 2 task options (codes "id") 1
      (err (error "refused")) (refl, tt) refl (omega arith)

turns-get_round_robin_strategy_example :
    turns (get_round_robin_strategy 2) 2 0 (0 ∷ 1 ∷ []) ≡ (map {A = ℕ} some (0 ∷ 1 ∷ []), 0)
turns-get_round_robin_strategy_example = turns-get_round_robin_strategy 0 (1 ∷ [])
