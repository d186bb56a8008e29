-- ===== src/Http/Handlers.antt =====
-- internal/operation/handler.go: creation, listing and reading. `error_text` is what `err.Error()`
-- gives, and `invalid_text` the same for an error of the validator.
use mathlib.Core.Option
use update_service.Base.{
  ℕ, String, Bool, Option, none, some, List, [], ◌∷◌, ◌⊎◌, inl, inr, cat, str_eq, if◌then◌else◌,
}
use update_service.Domain.Json.{Json, Items, nil, cons, num, str, arr, obj, Fields, end, field}
use update_service.Domain.Operation.{Operation, InputFile, OperationError}
use update_service.Domain.Text.{status_text, stage_text, status_of}
use update_service.Effect.{Error, M, ◌>>=◌, get_env}
use update_service.UseCases.Create
use update_service.UseCases.Create.Output.{CreateOperationOutput, marshal_target}
use update_service.UseCases.Query.{get_operation}
use update_service.UseCases.List
use update_service.UseCases.List.{ListOperationInput, ListOperationOutput}
use update_service.Http.{
  CreateOperationRequest, Request, Response, respond, refuse, catch, with_id, with_key,
}

-- A text that is not empty.
abbrev given : String → Option String
given s = if str_eq s "" then none else some s

abbrev with_text : String → Option String → Fields → Fields
with_text key none fs = fs
with_text key (some s) fs = field key (str s) fs

abbrev with_time : (ℕ → String) → String → Option ℕ → Fields → Fields
with_time rfc3339 key none fs = fs
with_time rfc3339 key (some t) fs = field key (str (rfc3339 t)) fs

abbrev file_fields : InputFile → Fields
file_fields f =
    field "size_bytes" (num f.size_bytes)
      (field "sha256" (str f.sha256) (field "file_name" (str f.file_name) end))

abbrev with_file : Option InputFile → Fields → Fields
with_file none fs = fs
with_file (some f) fs = field "input_file" (obj (file_fields f)) fs

abbrev with_error : Option OperationError → Fields → Fields
with_error none fs = fs
with_error (some x) fs =
    field "error" (obj (field "code" (str x.code) (field "message" (str x.message) end))) fs

-- The members that an operation has in a list and alone.
abbrev common_fields : (ℕ → String) → Operation → Fields → Fields
common_fields rfc3339 op rest = field "operation_id" (str op.id) (
    field "status" (str (status_text op.status)) (
      field "stage" (str (stage_text op.stage)) (
        field "processor" (str op.processor) (
          field "retry_count" (num op.retry_count) (
            field "max_attempts" (num op.max_attempts) (
              field "created_at" (str (rfc3339 op.created_at)) (
                field "updated_at" (str (rfc3339 op.updated_at))
                  (field "version" (num op.version) rest))))))))

abbrev list_items : (ℕ → String) → List Operation → Items
list_items rfc3339 [] = nil
list_items rfc3339 (op ∷ ops) = cons (obj (common_fields rfc3339 op end)) (list_items rfc3339 ops)

-- `Handler`: the address and the settings of its use cases.
module _ (error_text : Error → String) (invalid_text : CreateOperationRequest → String)
    (base_url : String) where
  unfoldable pub created_response : CreateOperationOutput → M Response
  unfolding status_text stage_text
  created_response out = do
    env ← get_env
    respond 202 (
        obj (
          field "operation_id" (str out.operation_id) (
            field "status" (str (status_text out.status)) (
              field "stage" (str (stage_text out.stage)) (
                field "upload_target" (obj (marshal_target out.upload_target)) (
                  field "status_url" (str out.status_url) (
                    field "result_url" (str out.result_url) (
                      field "created_at" (str (env.rfc3339 out.created_at))
                        (field "version" (num out.version) end)))))))))

  abbrev pub create_answer : CreateOperationOutput ⊎ Error → M Response
  create_answer (inl out) = created_response out
  create_answer (inr x) = refuse 500 (error_text x)

  -- `validate:"required"` of the processor.
  abbrev pub create_bound : Request → Option CreateOperationRequest → M Response
  create_bound req none = refuse 400 "invalid JSON body"
  create_bound req (some r) =
      if str_eq r.processor ""
      then respond 422 (
          obj
            (field "error" (str "validation failed") (field "details" (str (invalid_text r)) end)))
      else (do
        out ← catch (
            Create.execute base_url
              (record {
                processor = r.processor;
                deadline = r.deadline;
                retry_policy = r.retry_policy;
                client_reference = r.client_reference;
              })
              (req.header "Idempotency-Key") req.method req.path)
        create_answer out)

  -- `CreateOperations`
  unfoldable pub create_operations : Request → M Response
  unfolding catch created_response
  create_operations req = with_key req (create_bound req req.create_request)

  abbrev pub list_answer : ListOperationOutput ⊎ Error → M Response
  list_answer (inl out) = do
    env ← get_env
    respond 200 (
        obj (
          field "items" (arr (list_items env.rfc3339 out.operations))
            (with_text "next_cursor" out.next_cursor end)))
  list_answer (inr x) = refuse 500 (error_text x)

  unfoldable pub list_input : Request → ListOperationInput
  unfolding status_of
  list_input req = record {
    status = Option.map status_of (given (req.query "status"));
    processor = given (req.query "processor");
    cursor = given (req.query "cursor");
    limit = 50;
  }

  -- `ListOperations`, with the collation of the table.
  unfoldable pub list_operations : (String → String → Bool) → Request → M Response
  unfolding catch status_text stage_text list_input
  list_operations le req = do out ← catch (List.execute le (list_input req)); list_answer out

  unfoldable pub operation_body : (ℕ → String) → Operation → Json
  unfolding status_text stage_text
  operation_body rfc3339 op =
      let url = cat base_url (cat "/operations/" op.id) in
      obj (
        common_fields rfc3339 op (
          field "status_url" (str url) (
            field "result_url" (str (cat url "/result")) (
              with_time rfc3339 "deadline" op.deadline (
                with_file op.input_file (
                  with_text "current_job_id" op.current_job_id (
                    with_text "current_attempt_id" op.current_attempt_id (
                      with_text "current_transfer_id" op.current_transfer_id (
                        with_time rfc3339 "cancel_requested_at" op.cancel_requested_at
                          (with_error op.error end))))))))))

  abbrev pub get_answer : Option Operation ⊎ Error → M Response
  get_answer (inr x) = refuse 500 (error_text x)
  get_answer (inl none) = refuse 404 "operation not found"
  get_answer (inl (some op)) = do env ← get_env; respond 200 (operation_body env.rfc3339 op)

  -- `GetOperation`
  unfoldable pub read_operation : Request → M Response
  unfolding catch operation_body
  read_operation req = with_id req (do out ← catch (get_operation req.id); get_answer out)
