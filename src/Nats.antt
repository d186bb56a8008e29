-- ===== src/Nats.antt =====
-- internal/infrastructure/nats: the subjects, and what the client publishes.
use update_service.Base.{String, List, ◌∷◌, [], cat}
use update_service.Domain.Json.{Json}
use update_service.Effect.{Content, json, M, ok, ◌>>◌, call}

-- `NodeCommandSubject`
unfoldable pub node_command_subject : String → String
node_command_subject node_id = cat "control.node." (cat node_id ".commands")

-- `TransferChunksSubject`
unfoldable pub transfer_chunks_subject : String → String
transfer_chunks_subject transfer_id = cat "data.transfer." (cat transfer_id ".chunks")

-- `PublishWithHeaders`
unfoldable pub publish_with_headers : String → Content → List (String × String) → M (Unit {0})
unfolding call
publish_with_headers subject content headers = do
  call
  λ _ w. ok tt (record w {
    published = (record { subject = subject; headers = headers; content = content }) ∷ w.published;
  })

-- `Publish`
unfoldable pub publish : String → Content → M (Unit {0})
unfolding publish_with_headers
publish subject content = publish_with_headers subject content []

-- `PublishCommand`: the fields that it extracts are logged.
unfoldable pub publish_command : String → Json → M (Unit {0})
unfolding publish node_command_subject
publish_command node_id payload = publish (node_command_subject node_id) (json payload)
