-- ===== src/Objects/Answers.antt =====
-- `SaceResult` and `SaceStatusResponse` as objects: their constructors and copies.
use service_excutor.Prelude.{ℕ, List, [], Option, some, Text, take, ◌>>=◌}
use service_excutor.Types.{
  SaceResult, ResultType, ResultStatus, SaceStatusResponse, ResponseType, ResponseStatus,
  result_type_none, result_status_ok, response_type_service, response_status_exit, extra_bufer_len,
}
use service_excutor.Objects.Commands.{memcpy_extra, zeros}

pub data ResultHeaderType : Type 0 where
  base_result_normal base_result_response : ResultHeaderType

pub record ResultHeader : Type 0 where
  pub type : ResultHeaderType
  pub len : ℕ

pub record ResultObject : Type 0 where
  pub header : ResultHeader
  pub sequence : ℕ
  pub name : Text
  pub result_type : ResultType
  pub result_status : ResultStatus
  pub result_extra : List ℕ
  pub result_extra_len : ℕ
  pub result_fd : Option ℕ

pub record ResponseObject : Type 0 where
  pub header : ResultHeader
  pub label : ℕ
  pub name : Text
  pub type : ResponseType
  pub status : ResponseStatus
  pub extra : List ℕ
  pub extra_len : ℕ

unfoldable pub new_header : ResultHeaderType → ResultHeader
new_header t = record { type = t; len = 0 }

unfoldable pub copy_header : ResultHeader → ResultHeader
copy_header h = record { type = h.type; len = h.len }

-- `SaceResult ()`, which leaves the descriptor as the memory had it.
unfoldable pub new_result_object : Option ℕ → ResultObject
unfolding new_header zeros
new_result_object fd = record {
  header = new_header base_result_normal;
  sequence = 0;
  name = [];
  result_type = result_type_none;
  result_status = result_status_ok;
  result_extra = zeros extra_bufer_len;
  result_extra_len = 0;
  result_fd = fd;
}

-- `SaceResult (const SaceResult&)` in memory whose extra bytes were `old`.
unfoldable pub copy_result : ResultObject → List ℕ → Option ResultObject
unfolding copy_header memcpy_extra
copy_result o old = memcpy_extra o.result_extra_len o.result_extra old >>= λ e. some (record {
  header = copy_header o.header;
  sequence = o.sequence;
  name = o.name;
  result_type = o.result_type;
  result_status = o.result_status;
  result_extra = e;
  result_extra_len = o.result_extra_len;
  result_fd = o.result_fd;
})

-- `SaceStatusResponse ()`
unfoldable pub new_response_object : ResponseObject
unfolding new_header zeros
new_response_object = record {
  header = new_header base_result_response;
  label = 0;
  name = [];
  type = response_type_service;
  status = response_status_exit;
  extra = zeros extra_bufer_len;
  extra_len = 0;
}

-- `SaceStatusResponse (const SaceStatusResponse&)`
unfoldable pub copy_response : ResponseObject → List ℕ → Option ResponseObject
unfolding copy_header memcpy_extra
copy_response o old = memcpy_extra o.extra_len o.extra old >>= λ e. some (record {
  header = copy_header o.header;
  label = o.label;
  name = o.name;
  type = o.type;
  status = o.status;
  extra = e;
  extra_len = o.extra_len;
})

unfoldable pub view_result : ResultObject → SaceResult
view_result o = record {
  sequence = o.sequence;
  name = o.name;
  result_type = o.result_type;
  result_status = o.result_status;
  result_extra = take o.result_extra_len o.result_extra;
  result_fd = o.result_fd;
}

unfoldable pub view_response : ResponseObject → SaceStatusResponse
view_response o = record {
  label = o.label;
  name = o.name;
  type = o.type;
  status = o.status;
  extra = take o.extra_len o.extra;
}
