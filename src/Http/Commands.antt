-- ===== src/Http/Commands.antt =====
-- internal/operation/handler.go: upload, cancellation, retry, result and health.
use text.Mathlib.Text.{starts_with}
use update_service.Base.{
  ℕ, String, Bool, Option, none, some, List, [], ◌∷◌, ◌⊎◌, inl, inr, str_eq, if◌then◌else◌,
}
use update_service.Domain.Json.{num, str, obj, end, field}
use update_service.Domain.Text.{status_text, stage_text}
use update_service.Effect.{
  Error, operation_not_found, invalid_state, already_terminal, invalid_state_for_retry,
  result_not_ready, result_expired, M, ◌>>=◌, pure, nil_panic, get_env,
}
use update_service.Effect.Tables.{OperationResult}
use update_service.Transfer.Sender.{Headers}
use update_service.UseCases.Cancel
use update_service.UseCases.Cancel.{CancelOperationOutput}
use update_service.UseCases.Retry
use update_service.UseCases.Retry.{RetryOperationOutput}
use update_service.UseCases.Upload
use update_service.UseCases.Upload.{FileOperationOutput}
use update_service.UseCases.Query.{get_result}
use update_service.Http.{Request, Response, respond, refuse, catch, with_id, with_key}

-- What a pointer points to.
abbrev pub pointed : {A : Type 0} → Option A → M A
pointed none = nil_panic
pointed (some a) = pure a

-- The headers that are not empty, of the three that an upload looks at.
abbrev kept : (String → String) → String → Headers → Headers
kept header key rest = if str_eq (header key) "" then rest else (key, header key) ∷ rest

abbrev upload_headers : (String → String) → Headers
upload_headers header =
    kept header "Digest" (kept header "X-File-Size" (kept header "X-File-Name" []))

-- `Handler`: the address and the settings of its use cases.
module _ (error_text : Error → String) (base_url staging_dir : String) (max_file_size : ℕ) where
  unfoldable pub upload_response : FileOperationOutput → M Response
  unfolding status_text stage_text
  upload_response out = do
    env ← get_env
    file ← pointed out.input_file
    respond 202 (
        obj (
          field "operation_id" (str out.operation_id) (
            field "status" (str (status_text out.status)) (
              field "stage" (str (stage_text out.stage)) (
                field "input_file"
                  (obj (
                    field "size_bytes" (num file.size_bytes) (
                      field "sha256" (str file.sha256)
                        (field "file_name" (str file.file_name) end))))
                  (field "status_url" (str out.status_url) (
                    field "result_url" (str out.result_url) (
                      field "updated_at" (str (env.rfc3339 out.updated_at))
                        (field "version" (num out.version) end)))))))))

  abbrev pub upload_answer : FileOperationOutput ⊎ Error → M Response
  upload_answer (inl out) = upload_response out
  upload_answer (inr operation_not_found) = refuse 404 "operation not found"
  upload_answer (inr invalid_state) = refuse 409 "operation not in CREATED state"
  upload_answer (inr x) = refuse 500 (error_text x)

  abbrev pub upload_body : Request → List ℕ → M Response
  upload_body req body = do
    out ← catch (
        Upload.execute staging_dir max_file_size base_url
          (record { operation_id = req.id; body = body; headers = upload_headers req.header }))
    upload_answer out

  abbrev pub upload_form : Request → Option (Option (List ℕ)) → M Response
  upload_form req none = refuse 400 "invalid multipart form"
  upload_form req (some none) = refuse 400 "file field is required"
  upload_form req (some (some body)) = upload_body req body

  -- `FileOperations`
  unfoldable pub file_operations : Request → M Response
  unfolding catch upload_response
  file_operations req = with_id req (
      with_key req (
        if starts_with (req.header "Content-Type") "multipart/form-data"
        then upload_form req req.form
        else upload_body req req.body))

  unfoldable pub cancel_response : CancelOperationOutput → M Response
  unfolding status_text
  cancel_response out = do
    env ← get_env
    respond 202 (
        obj (
          field "operation_id" (str out.operation_id) (
            field "status" (str (status_text out.status)) (
              field "cancel_requested_at" (str (env.rfc3339 out.cancel_requested_at)) (
                field "status_url" (str out.status_url) (field "version" (num out.version) end))))))

  abbrev pub cancel_answer : CancelOperationOutput ⊎ Error → M Response
  cancel_answer (inl out) = cancel_response out
  cancel_answer (inr operation_not_found) = refuse 404 "operation not found"
  cancel_answer (inr already_terminal) =
      refuse 409 "operation is in terminal state, cancellation not applicable"
  cancel_answer (inr x) = refuse 500 (error_text x)

  abbrev pub cancel_bound : Request → Option String → M Response
  cancel_bound req none = refuse 400 "invalid JSON body"
  cancel_bound req (some reason) = do
    out ← catch (Cancel.execute base_url (record { operation_id = req.id; reason = reason }))
    cancel_answer out

  -- `CancelOperations`
  unfoldable pub cancel_operations : Request → M Response
  unfolding catch cancel_response
  cancel_operations req = with_id req (with_key req (cancel_bound req req.reason_request))

  unfoldable pub retry_response : RetryOperationOutput → M Response
  unfolding status_text
  retry_response out = do
    env ← get_env
    job_id ← pointed out.current_job_id
    attempt_id ← pointed out.current_attempt_id
    respond 202 (
        obj (
          field "operation_id" (str out.operation_id) (
            field "status" (str (status_text out.status)) (
              field "retry_count" (num out.retry_count) (
                field "max_attempts" (num out.max_attempts) (
                  field "current_job_id" (str job_id) (
                    field "current_attempt_id" (str attempt_id) (
                      field "status_url" (str out.status_url) (
                        field "updated_at" (str (env.rfc3339 out.updated_at))
                          (field "version" (num out.version) end))))))))))

  abbrev pub retry_answer : RetryOperationOutput ⊎ Error → M Response
  retry_answer (inl out) = retry_response out
  retry_answer (inr operation_not_found) = refuse 404 "operation not found"
  retry_answer (inr invalid_state_for_retry) =
      refuse 409 "operation not in FAILED or TIMEOUT state, or retry not allowed"
  retry_answer (inr x) = refuse 500 (error_text x)

  abbrev pub retry_bound : Request → Option String → M Response
  retry_bound req none = refuse 400 "invalid JSON body"
  retry_bound req (some reason) = do
    out ← catch (Retry.execute base_url (record { operation_id = req.id; reason = reason }))
    retry_answer out

  -- `RetryOperations`
  unfoldable pub retry_operations : Request → M Response
  unfolding catch retry_response
  retry_operations req = with_id req (with_key req (retry_bound req req.reason_request))

  unfoldable pub result_response : OperationResult → M Response
  result_response res = do
    env ← get_env
    respond 200 (
        obj (
          field "operation_id" (str res.operation_id) (
            field "result_id" (str res.id) (
              field "processor" (str res.processor) (
                field "schema_version" (num res.schema_version) (
                  field "value" (obj res.value)
                    (field "produced_at" (str (env.rfc3339 res.produced_at)) end)))))))

  abbrev pub result_answer : OperationResult ⊎ Error → M Response
  result_answer (inl res) = result_response res
  result_answer (inr operation_not_found) = refuse 404 "operation not found"
  result_answer (inr result_not_ready) = refuse 409 "result not ready - operation not COMPLETED"
  result_answer (inr result_expired) = refuse 410 "result expired - removed by retention policy"
  result_answer (inr x) = refuse 500 (error_text x)

  -- `ResultOperations`
  unfoldable pub result_operations : Request → M Response
  unfolding catch result_response
  result_operations req = with_id req (do out ← catch (get_result req.id); result_answer out)

abbrev status_body : String → M Response
status_body s = respond 200 (obj (field "status" (str s) end))

-- `Health`, `HealthLive` and `HealthReady`, with `ReadinessCheck`: whether NATS is connected.
unfoldable pub health : M Response
health = status_body "ok"

unfoldable pub health_live : M Response
health_live = status_body "alive"

unfoldable pub health_ready : Bool → M Response
health_ready is_connected =
    if is_connected
    then status_body "ready"
    else respond 503
        (obj (field "status" (str "not ready") (field "error" (str "nats not connected") end)))
