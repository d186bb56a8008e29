-- ===== src/Http/Routes/Coded.antt =====
-- handler.go: each handler answers with one of the interface's codes, or panics.
use text.Mathlib.Text.{starts_with}
use update_service.Base.{
  ◌≡◌, ℕ, refl, inl, inr, ◌⊎◌, String, Bool, true, false, ◌||◌, Option, none, some, List, str_eq,
  if◌then◌else◌, ◌==◌,
}
use update_service.Domain.Json.{Json}
use update_service.Domain.Operation.{Operation}
use update_service.Effect.{
  Error, operation_not_found, invalid_state, already_terminal, invalid_state_for_retry,
  result_not_ready, result_expired, Env, World, Outcome, ok, err, panic, M, ◌>>=◌, world_of,
}
use update_service.Effect.Tables.{OperationResult}
use update_service.UseCases.Create.Output.{CreateOperationOutput}
use update_service.UseCases.Cancel.{CancelOperationOutput}
use update_service.UseCases.Retry.{RetryOperationOutput}
use update_service.UseCases.Upload.{FileOperationOutput}
use update_service.UseCases.List.{ListOperationOutput}
use update_service.Http.{
  CreateOperationRequest, Request, Response, catch, with_id, with_key, respond,
}
use update_service.Http.Handlers.{
  created_response, create_answer, create_bound, create_operations, list_answer, list_operations,
  get_answer, read_operation,
}
use update_service.Http.Commands.{
  pointed, upload_response, upload_answer, upload_form, file_operations, cancel_response,
  cancel_answer, cancel_bound, cancel_operations, retry_response, retry_answer, retry_bound,
  retry_operations, result_response, result_answer, result_operations,
}

-- The codes that the interface answers with.
abbrev pub is_code : ℕ → Bool
is_code n =
    n == 200
    || (n == 202
        || (n == 400
            || (n == 404
                || (n == 409
                    || (n == 410
                        || (n == 413 || (n == 415 || (n == 422 || (n == 500 || n == 503)))))))))

abbrev pub Fine : Outcome Response → Type 0
Fine (ok r w) = is_code r.code ≡ true
Fine (err x w) = ⊥
Fine (panic w) = Unit

-- An action gives no error: it answers with one of the codes, or panics.
pub record Coded (m : M Response) : Type 0 where
  pub at : (e : Env) (w : World) → Fine (m e w)

pub Coded-if : (b : Bool) (m n : M Response) → Coded m → Coded n → Coded (if b then m else n)
Coded-if true m n h k = h
Coded-if false m n h k = k

Coded-catch :
    {A : Type 0} (m : M A) (f : A ⊎ Error → M Response)
    → ((o : A ⊎ Error) → Coded (f o))
    → Coded (catch m >>= f)
unfolding catch
Coded-catch m f h = record { at = λ e w. go e (m e w) }
  where
    go : (e : Env) (o : Outcome _) → Fine ((catch (λ _ _. o) >>= f) e (world_of o))
    go e (ok a w) = (h (inl a)).at e w
    go e (err x w) = (h (inr x)).at e w
    go e (panic w) = tt

Coded-pointed :
    {A : Type 0} (o : Option A) (f : A → M Response)
    → ((a : A) → Coded (f a))
    → Coded (pointed o >>= f)
Coded-pointed none f h = record { at = λ e w. tt }
Coded-pointed (some a) f h = h a

pub answers : (code : ℕ) (body : Json) → is_code code ≡ true → Coded (respond code body)
answers code body h = record { at = λ e w. h }

with_id-Coded : (req : Request) (m : M Response) → Coded m → Coded (with_id req m)
with_id-Coded req m h = Coded-if (str_eq req.id "") _ m (answers 400 _ refl) h

with_key-Coded : (req : Request) (m : M Response) → Coded m → Coded (with_key req m)
with_key-Coded req m h =
    Coded-if (str_eq (req.header "Idempotency-Key") "") _ m (answers 400 _ refl) h

module _ (error_text : Error → String) (invalid_text : CreateOperationRequest → String)
    (base_url : String) (req : Request) where
  pub create_operations-Coded : Coded (create_operations error_text invalid_text base_url req)
  unfolding create_operations created_response
  create_operations-Coded = with_key-Coded req _ (bound req.create_request)
    where
      answered :
          (o : CreateOperationOutput ⊎ Error)
          → Coded (create_answer error_text invalid_text base_url o)
      answered (inl out) = record { at = λ e w. refl }
      answered (inr x) = answers 500 _ refl

      bound :
          (o : Option CreateOperationRequest)
          → Coded (create_bound error_text invalid_text base_url req o)
      bound none = answers 400 _ refl
      bound (some r) =
          Coded-if (str_eq r.processor "") _ _ (answers 422 _ refl) (Coded-catch _ _ answered)

  pub list_operations-Coded :
      (le : String → String → Bool)
      → Coded (list_operations error_text invalid_text base_url le req)
  unfolding list_operations
  list_operations-Coded le = Coded-catch _ _ answered
    where
      answered :
          (o : ListOperationOutput ⊎ Error) → Coded (list_answer error_text invalid_text base_url o)
      answered (inl out) = record { at = λ e w. refl }
      answered (inr x) = answers 500 _ refl

  pub read_operation-Coded : Coded (read_operation error_text invalid_text base_url req)
  unfolding read_operation
  read_operation-Coded = with_id-Coded req _ (Coded-catch _ _ answered)
    where
      answered :
          (o : Option Operation ⊎ Error) → Coded (get_answer error_text invalid_text base_url o)
      answered (inl none) = answers 404 _ refl
      answered (inl (some op)) = record { at = λ e w. refl }
      answered (inr x) = answers 500 _ refl

module _ (error_text : Error → String) (base_url staging_dir : String) (max_file_size : ℕ)
    (req : Request) where
  pub file_operations-Coded :
      Coded (file_operations error_text base_url staging_dir max_file_size req)
  unfolding file_operations upload_response
  file_operations-Coded = with_id-Coded req _ (
      with_key-Coded req _ (
        Coded-if (starts_with (req.header "Content-Type") "multipart/form-data") _ _ (form req.form)
          (Coded-catch _ _ answered)))
    where
      answered :
          (o : FileOperationOutput ⊎ Error)
          → Coded (upload_answer error_text base_url staging_dir max_file_size o)
      answered (inl out) = record {
        at = λ e w. (Coded-pointed out.input_file _ λ f. answers 202 _ refl).at e w;
      }
      answered (inr operation_not_found) = answers 404 _ refl
      answered (inr invalid_state) = answers 409 _ refl
      answered (inr _) = answers 500 _ refl

      form :
          (o : Option (Option (List ℕ)))
          → Coded (upload_form error_text base_url staging_dir max_file_size req o)
      form none = answers 400 _ refl
      form (some none) = answers 400 _ refl
      form (some (some body)) = Coded-catch _ _ answered

  pub cancel_operations-Coded :
      Coded (cancel_operations error_text base_url staging_dir max_file_size req)
  unfolding cancel_operations cancel_response
  cancel_operations-Coded = with_id-Coded req _ (with_key-Coded req _ (bound req.reason_request))
    where
      answered :
          (o : CancelOperationOutput ⊎ Error)
          → Coded (cancel_answer error_text base_url staging_dir max_file_size o)
      answered (inl out) = record { at = λ e w. refl }
      answered (inr operation_not_found) = answers 404 _ refl
      answered (inr already_terminal) = answers 409 _ refl
      answered (inr _) = answers 500 _ refl

      bound :
          (o : Option String)
          → Coded (cancel_bound error_text base_url staging_dir max_file_size req o)
      bound none = answers 400 _ refl
      bound (some reason) = Coded-catch _ _ answered

  pub retry_operations-Coded :
      Coded (retry_operations error_text base_url staging_dir max_file_size req)
  unfolding retry_operations retry_response
  retry_operations-Coded = with_id-Coded req _ (with_key-Coded req _ (bound req.reason_request))
    where
      answered :
          (o : RetryOperationOutput ⊎ Error)
          → Coded (retry_answer error_text base_url staging_dir max_file_size o)
      answered (inl out) = record {
        at = λ e w.
            (Coded-pointed out.current_job_id _
                λ j. Coded-pointed out.current_attempt_id _ λ a. answers 202 _ refl).at
              e w;
      }
      answered (inr operation_not_found) = answers 404 _ refl
      answered (inr invalid_state_for_retry) = answers 409 _ refl
      answered (inr _) = answers 500 _ refl

      bound :
          (o : Option String)
          → Coded (retry_bound error_text base_url staging_dir max_file_size req o)
      bound none = answers 400 _ refl
      bound (some reason) = Coded-catch _ _ answered

  pub result_operations-Coded :
      Coded (result_operations error_text base_url staging_dir max_file_size req)
  unfolding result_operations result_response
  result_operations-Coded = with_id-Coded req _ (Coded-catch _ _ answered)
    where
      answered :
          (o : OperationResult ⊎ Error)
          → Coded (result_answer error_text base_url staging_dir max_file_size o)
      answered (inl res) = record { at = λ e w. refl }
      answered (inr operation_not_found) = answers 404 _ refl
      answered (inr result_not_ready) = answers 409 _ refl
      answered (inr result_expired) = answers 410 _ refl
      answered (inr _) = answers 500 _ refl
