-- ===== src/UseCases/Create/Output.antt =====
-- create.go: `CreateOperationOutput`, and how encoding/json writes and reads it. The fields have
-- no tags, so the keys are their Go names. A time is written as the number that it is here.
use update_service.Base.{ℕ, String, Option, none, some}
use update_service.Domain.Json.{Json, null, num, str, obj, Fields, end, field, member}
use update_service.Domain.Operation.{OperationStatus, OperationStage, UploadTarget}
use update_service.Domain.Text.{status_text, stage_text, status_of, stage_of}

pub record CreateOperationOutput : Type 0 where
  pub operation_id : String
  pub status : OperationStatus
  pub stage : OperationStage
  pub upload_target : UploadTarget
  pub status_url : String
  pub result_url : String
  pub created_at : ℕ
  pub version : ℕ

abbrev pub marshal_target : UploadTarget → Fields
marshal_target t = field "Method" (str t.method) (
    field "URL" (str t.url) (
      field "Headers" (obj t.headers)
        (field "Expires" (num t.expires) (field "MaxBytes" (num t.max_bytes) end))))

-- `json.Marshal(out)`
unfoldable pub marshal_output : CreateOperationOutput → Json
unfolding status_text stage_text
marshal_output out = obj (
    field "OperationID" (str out.operation_id) (
      field "Status" (str (status_text out.status)) (
        field "Stage" (str (stage_text out.stage)) (
          field "UploadTarget" (obj (marshal_target out.upload_target)) (
            field "StatusURL" (str out.status_url) (
              field "ResultURL" (str out.result_url) (
                field "CreatedAt" (num out.created_at)
                  (field "Version" (num out.version) end))))))))

infixl 5 ◌>>=◌
abbrev ◌>>=◌ : {A B : Type 0} → Option A → (A → Option B) → Option B
none >>= f = none
some a >>= f = f a

-- A member that is missing or null leaves the zero value; one of another type is an error.
abbrev decode_text : Option Json → Option String
decode_text none = some ""
decode_text (some null) = some ""
decode_text (some (str s)) = some s
decode_text (some _) = none

abbrev decode_number : Option Json → Option ℕ
decode_number none = some 0
decode_number (some null) = some 0
decode_number (some (num n)) = some n
decode_number (some _) = none

abbrev decode_fields : Option Json → Option Fields
decode_fields none = some end
decode_fields (some null) = some end
decode_fields (some (obj fs)) = some fs
decode_fields (some _) = none

unfoldable pub unmarshal_target : Fields → Option UploadTarget
unmarshal_target fs = do
  method ← decode_text (member "Method" fs)
  url ← decode_text (member "URL" fs)
  headers ← decode_fields (member "Headers" fs)
  expires ← decode_number (member "Expires" fs)
  max_bytes ← decode_number (member "MaxBytes" fs)
  some (record {
    method = method;
    url = url;
    headers = headers;
    expires = expires;
    max_bytes = max_bytes;
  })

unfoldable pub unmarshal_fields : Fields → Option CreateOperationOutput
unfolding unmarshal_target status_of stage_of
unmarshal_fields fs = do
  operation_id ← decode_text (member "OperationID" fs)
  status ← decode_text (member "Status" fs)
  stage ← decode_text (member "Stage" fs)
  target ← decode_fields (member "UploadTarget" fs)
  upload_target ← unmarshal_target target
  status_url ← decode_text (member "StatusURL" fs)
  result_url ← decode_text (member "ResultURL" fs)
  created_at ← decode_number (member "CreatedAt" fs)
  version ← decode_number (member "Version" fs)
  some (record {
    operation_id = operation_id;
    status = status_of status;
    stage = stage_of stage;
    upload_target = upload_target;
    status_url = status_url;
    result_url = result_url;
    created_at = created_at;
    version = version;
  })

-- `json.Unmarshal(data, &out)`: an object is read member by member, null leaves the zero value,
-- and any other value is an error.
unfoldable pub unmarshal_output : Json → Option CreateOperationOutput
unfolding unmarshal_fields
unmarshal_output (obj fs) = unmarshal_fields fs
unmarshal_output null = unmarshal_fields end
unmarshal_output _ = none
