-- ===== src/Effect.antt =====
-- What every component stands on: the outcome of a Go call, the outside world, and calls that fail.
-- `Env` stands for what is not under internal/: the database server, NATS, the file system, the
-- clock, randomness, SHA-256, and the texts that encoding/json and time.Format give a value. A method is an action of `M`.
pub mod Post
pub mod Tables
use update_service.Base.{
  ℕ, suc, ◌+◌, ◌≡◌, String, Bool, false, List, [], ◌∷◌, ◌++◌, Option, none, some, if◌then◌else◌,
}
use update_service.Domain.Json.{Json, Fields}
use update_service.Domain.Event.{OperationEvent}
use Tables.{Db}

-- The errors that the code tells apart; `external` is any error of a call to the outside, and
-- `failure` one that the code makes with fmt.Errorf. `%w` keeps the error that it wraps.
pub data Error : Type 0 where
  operation_not_found invalid_state already_terminal invalid_state_for_retry result_not_ready
        result_expired no_healthy_worker row_not_found external :
      Error
  failure : String → Error

pub record Env : Type 0 where
  -- Whether the n-th call to the outside fails.
  pub fails : ℕ → Bool
  -- What the clock shows, and which hexadecimal text is drawn, at the n-th call.
  pub clock : ℕ → ℕ
  pub random : ℕ → String
  -- `%x` of the SHA-256 digest of some bytes.
  pub sha256 : List ℕ → String
  -- The text of a JSON value.
  pub render : Json → String
  -- `time.Format(time.RFC3339)`
  pub rfc3339 : ℕ → String

pub data Content : Type 0 where
  json : Json → Content
  bytes : List ℕ → Content

-- A message that NATS has accepted.
pub record Message : Type 0 where
  pub subject : String
  pub headers : List (String × String)
  pub content : Content

pub record World : Type 0 where
  -- The calls made so far.
  pub calls : ℕ
  pub db : Db
  -- The staging directories: a path and what the file there holds, the newest first.
  pub files : List (String × Content)
  -- What has been published, the newest first.
  pub published : List Message
  -- What the search index has been given: an operation's id and the event, the newest first.
  pub indexed : List (String × OperationEvent)

-- A call returns, returns an error, or panics. The state stays as the call left it.
pub data Outcome {ℓ} (A : Type ℓ) : Type ℓ where
  ok : A → World → Outcome A
  err : Error → World → Outcome A
  panic : World → Outcome A

abbrev pub M : Type 0 → Type 0
M A = Env → World → Outcome A

abbrev pub after : {A B : Type 0} → Outcome A → (A → World → Outcome B) → Outcome B
after (ok a w) k = k a w
after (err e w) k = err e w
after (panic w) k = panic w

infixl 5 ◌>>=◌ ◌>>◌
abbrev pub ◌>>=◌ : {A B : Type 0} → M A → (A → M B) → M B
◌>>=◌ m k e w = after (m e w) (λ a w'. k a e w')

abbrev pub ◌>>◌ : {B : Type 0} → M (Unit {0}) → M B → M B
m >> k = m >>= λ _. k

abbrev pub pure : {A : Type 0} → A → M A
pure a e w = ok a w

abbrev pub throw : {A : Type 0} → Error → M A
throw x e w = err x w

-- A nil pointer is read.
abbrev pub nil_panic : {A : Type 0} → M A
nil_panic e w = panic w

abbrev pub get_world : M World
get_world e w = ok w w

abbrev pub get_env : M Env
get_env e w = ok e w

abbrev pub modify : (World → World) → M (Unit {0})
modify f e w = ok tt (f w)

abbrev pub modify_db : (Db → Db) → M (Unit {0})
modify_db f e w = ok tt (record w { db = f w.db })

abbrev pub guard : Bool → Error → M (Unit {0})
guard b x e w = if b then ok tt w else err x w

abbrev pub counted : World → World
counted w = record w { calls = suc w.calls }

-- One call to the outside, which may fail.
unfoldable pub call : M (Unit {0})
call e w = if e.fails w.calls then err external (counted w) else ok tt (counted w)

-- `time.Now()`
unfoldable pub now : M ℕ
now e w = ok (e.clock w.calls) (counted w)

-- `rand.Read`, whose error the code drops, and `hex.EncodeToString`.
unfoldable pub random_hex : M String
random_hex e w = ok (e.random w.calls) (counted w)

abbrev recovered : Outcome (Unit {0}) → Outcome (Unit {0})
recovered (ok a w) = ok tt w
recovered (err x w) = ok tt w
recovered (panic w) = panic w

-- `_ = f(...)` and `if err := f(...); err != nil { log }`: an error is dropped.
unfoldable pub ignore_error : M (Unit {0}) → M (Unit {0})
ignore_error m e w = recovered (m e w)

abbrev pub committed : {A : Type 0} → Env → World → Outcome A → Outcome A
committed e w (ok a w') =
    if e.fails w'.calls then err external (record (counted w') { db = w.db }) else ok a (counted w')
committed e w (err x w') = err x (record w' { db = w.db })
committed e w (panic w') = panic (record w' { db = w.db })

-- `DB.InTx`: an error of the body or of the commit leaves the tables as they were.
unfoldable pub in_tx : {A : Type 0} → M A → M A
unfolding call
in_tx m = do call; λ e w. committed e w (m e w)

-- The world that a call leaves behind.
abbrev pub world_of : {A : Type 0} → Outcome A → World
world_of (ok a w) = w
world_of (err x w) = w
world_of (panic w) = w

-- No call to the outside fails.
abbrev pub IsReliable : Env → Type 0
IsReliable e = (n : ℕ) → e.fails n ≡ false

abbrev pub Returns : {A : Type 0} → Outcome A → (A → World → Type 0) → Type 0
Returns (ok a w) P = P a w
Returns (err x w) P = ⊥
Returns (panic w) P = ⊥

abbrev attempted : {A : Type 0} → Outcome A → Outcome (Option A)
attempted (ok a w) = ok (some a) w
attempted (err x w) = ok none w
attempted (panic w) = panic w

-- `if v, err := f(...); err == nil { … }`: no value if there was an error.
unfoldable pub attempt : {A : Type 0} → M A → M (Option A)
attempt m e w = attempted (m e w)
