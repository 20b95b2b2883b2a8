-- ===== src/NullBackend.antt =====
-- src/null_backend.ts: the class `NullBackend`. An `async` method that throws gives a promise that is
-- rejected at once.
use Prim.Native.String.{String}
use celeries.Base.{some}
use celeries.Base.Result.{ok, err}
use celeries.Containers.PromiseMap.Promises.{value, thrown}
use celeries.ResultBackend.{ResultBackend}

-- `error` makes the `Error` of a message.
module _ (C T : Type 0) {E : Type 0} (error : String → E) where
  unfoldable pub null_backend : ResultBackend C T E
  null_backend = record {
    put = λ now message. ok (some (now, thrown (error "cannot put results onto a null backend")));
    get = λ now options. ok (some (now, thrown (error "cannot get results from a null backend")));
    delete = λ now task_id. err (error "cannot delete results from a null backend");
    disconnect = λ now. ok (some (now, value tt));
    end = λ now. ok (some (now, value tt));
    uri = err (error "cannot query the URI of a null backend");
  }
