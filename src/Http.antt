-- ===== src/Http.antt =====
-- internal/operation/handler.go, internal/app/middleware.go and router.go: the HTTP interface. gin
-- parses a request and binds its body; a request here is what gin has made of it.
pub mod Handlers
pub mod Commands
pub mod Routes
use update_service.Base.{
  ℕ, ℤ, String, Bool, Option, none, some, List, ◌⊎◌, inl, inr, str_eq, if◌then◌else◌,
}
use update_service.Domain.Json.{Json, str, obj, end, field}
use update_service.Effect.{Error, Env, World, Outcome, ok, err, panic, M, pure}

-- `CreateOperationRequest`: the options and the metadata are not used.
pub record CreateOperationRequest : Type 0 where
  pub processor : String
  pub deadline : Option ℕ
  pub retry_policy : Option ℤ
  pub client_reference : String

pub record Request : Type 0 where
  pub method : String
  pub path : String
  -- `c.Param("id")`, `c.ContentType()`, `c.GetHeader` and `c.Query`: the empty text if it is missing.
  pub id : String
  pub content_type : String
  pub header : String → String
  pub query : String → String
  -- The declared length; `none` is -1, an unknown one.
  pub content_length : Option ℕ
  pub body : List ℕ
  -- The form of a multipart body, and its field "file"; `none` if it cannot be parsed.
  pub form : Option (Option (List ℕ))
  -- What `c.ShouldBindJSON` makes of the body, for a creation and for a reason; `none` is an error.
  pub create_request : Option CreateOperationRequest
  pub reason_request : Option String

pub record Response : Type 0 where
  pub code : ℕ
  pub body : Json

-- `c.JSON`
abbrev pub respond : ℕ → Json → M Response
respond code body = pure (record { code = code; body = body })

-- `gin.H{"error": text}`
abbrev pub refuse : ℕ → String → M Response
refuse code text = respond code (obj (field "error" (str text) end))

abbrev caught : {A : Type 0} → Outcome A → Outcome (A ⊎ Error)
caught (ok a w) = ok (inl a) w
caught (err x w) = ok (inr x) w
caught (panic w) = panic w

-- `out, err := f(...)`, to look at the error.
unfoldable pub catch : {A : Type 0} → M A → M (A ⊎ Error)
catch m e w = caught (m e w)

-- What a handler does without an id, and without the header.
abbrev pub with_id : Request → M Response → M Response
with_id req next = if str_eq req.id "" then refuse 400 "operation id is required" else next

abbrev pub with_key : Request → M Response → M Response
with_key req next =
    if str_eq (req.header "Idempotency-Key") ""
    then refuse 400 "Idempotency-Key header is required"
    else next
