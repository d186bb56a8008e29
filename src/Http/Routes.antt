-- ===== src/Http/Routes.antt =====
-- internal/app/router.go and middleware.go: the routes, and what stands before the handlers. No
-- handler adds an error to gin's context, so SanitizeErrorMiddleware passes every response on;
-- AuthMiddleware checks nothing, and ErrorMiddleware and CORSMiddleware are not in use.
pub mod Codes
pub mod Coded
pub mod Answers
use update_service.Base.{
  ℕ, ◌^◌, String, Bool, true, false, ◌&&◌, ◌||◌, not, Option, none, some, ltb, str_eq,
  if◌then◌else◌,
}
use update_service.Domain.Json.{Json, bool, str, obj, end, field}
use update_service.Effect.{Error, Env, World, Outcome, ok, err, panic, M, ◌>>=◌, pure, random_hex}
use update_service.Http.{CreateOperationRequest, Request, Response, respond}
use update_service.Http.Handlers.{create_operations, list_operations, read_operation}
use update_service.Http.Commands.{
  file_operations, cancel_operations, retry_operations, result_operations, health, health_live,
  health_ready,
}

pub data Route : Type 0 where
  get_health get_live get_ready post_operation get_operations get_operation put_file post_cancel
        post_retry get_result :
      Route

-- The body of the middleware's own responses.
abbrev error_body : String → String → String → Bool → Json
error_body code message request_id retryable = obj (
    field "error"
      (obj (
        field "code" (str code) (
          field "message" (str message)
            (field "request_id" (str request_id) (field "retryable" (bool retryable) end)))))
      end)

-- `CorrelationMiddleware`: the id that the request brings, or a new one.
unfoldable pub correlation : Request → M String
unfolding random_hex
correlation req =
    if str_eq (req.header "X-Request-ID") "" then random_hex else pure (req.header "X-Request-ID")

abbrev recovered : String → Outcome Response → Outcome Response
recovered id (ok r w) = ok r w
recovered id (err x w) = err x w
recovered id (panic w) =
    ok
      (record {
        code = 500;
        body = error_body "INTERNAL_ERROR" "An unexpected error occurred" id true;
      })
      w

-- `RecoveryMiddleware`
unfoldable pub recover : String → M Response → M Response
recover id next e w = recovered id (next e w)

-- `ContentTypeMiddleware`
unfoldable pub check_content_type : String → Request → M Response → M Response
check_content_type id req next =
    if (str_eq req.method "POST" || str_eq req.method "PUT")
      && (not (str_eq req.content_type "application/json")
          && (not (str_eq req.content_type "application/octet-stream")
              && not (str_eq req.content_type "multipart/form-data")))
    then respond 415 (
        error_body "VALIDATION_ERROR"
          "Content-Type must be application/json or application/octet-stream" id false)
    else next

abbrev exceeds : Option ℕ → ℕ → Bool
exceeds none max_size = false
exceeds (some n) max_size = ltb max_size n

-- `RequestSizeLimitMiddleware`: a length that is not declared passes.
unfoldable pub limit_size : ℕ → String → Request → M Response → M Response
limit_size max_size id req next =
    if exceeds req.content_length max_size
    then respond 413
        (error_body "CONTENT_TOO_LARGE" "Request body exceeds maximum allowed size" id false)
    else next

-- `1<<30`
abbrev pub max_request_size : ℕ
max_request_size = 2 ^ 30

pub record Answer : Type 0 where
  -- The header "X-Request-ID".
  pub request_id : String
  pub response : Response

-- The application: the texts of errors, the collation, its settings, and whether NATS is connected.
module _ (error_text : Error → String) (invalid_text : CreateOperationRequest → String)
    (le : String → String → Bool) (base_url staging_dir : String) (max_file_size : ℕ)
    (is_connected : Bool) where
  unfoldable pub handle : Route → String → Request → M Response
  unfolding create_operations list_operations read_operation file_operations cancel_operations
      retry_operations result_operations health health_live health_ready check_content_type
      limit_size
  handle get_health id req = health
  handle get_live id req = health_live
  handle get_ready id req = health_ready is_connected
  handle post_operation id req =
      check_content_type id req (create_operations error_text invalid_text base_url req)
  handle get_operations id req = list_operations error_text invalid_text base_url le req
  handle get_operation id req = read_operation error_text invalid_text base_url req
  handle put_file id req = check_content_type id req (
      limit_size max_request_size id req
        (file_operations error_text base_url staging_dir max_file_size req))
  handle post_cancel id req =
      check_content_type id req
        (cancel_operations error_text base_url staging_dir max_file_size req)
  handle post_retry id req =
      check_content_type id req (retry_operations error_text base_url staging_dir max_file_size req)
  handle get_result id req = result_operations error_text base_url staging_dir max_file_size req

  -- What the engine does with a request of a route.
  unfoldable pub serve : Route → Request → M Answer
  unfolding correlation recover handle
  serve route req = do
    id ← correlation req
    r ← recover id (handle route id req)
    pure (record { request_id = id; response = r })
