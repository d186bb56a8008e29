-- ===== src/EndToEnd.antt =====
-- dispatch.go and receiver.go together: the messages of a dispatch, taken in by its worker.
use update_service.Base.{
  ℕ, ◌*◌, ◌≡◌, refl, String, true, List, arith, scan_decimal-decimal, str_eq_refl, ◌==◌, length,
}
use update_service.Domain.Job.{FileTransfer}
use update_service.Domain.Operation.{Operation, InputFile}
use update_service.Effect.{Env, World, Outcome, ◌>>=◌}
use update_service.Effect.Post.{Post}
use update_service.Transfer.Sender.{Headers, chunk_payload}
use update_service.Transfer.Active.{ActiveTransfer, read_chunk}
use update_service.Transfer.Accept.{accept_transfer}
use update_service.Transfer.Delivery.{Tells, deliver}
use update_service.UseCases.Dispatch.{Plan, dispatched_transfer, dispatch_headers, start_payload}

same_number : (n : ℕ) → (n == n) ≡ true
same_number n = ground arith

-- The headers of the dispatch's loop.
abbrev pub chunk_headers_of : (List ℕ → String) → FileTransfer → List ℕ → ℕ → Headers
chunk_headers_of sha256 t file index = dispatch_headers sha256 t (chunk_payload file index) index

-- The receiver reads from the headers of a dispatch what the dispatch has put there, and finds the
-- payload's length and digest right.
pub read_chunk-dispatch_headers :
    (sha256 : List ℕ → String) (staging_dir : String) (op : Operation) (info : InputFile)
    (plan : Plan) (file : List ℕ)
    → let t : FileTransfer = dispatched_transfer staging_dir op info plan in
      Tells sha256 t.id (chunk_headers_of sha256 t file) file
unfolding read_chunk dispatch_headers dispatched_transfer
read_chunk-dispatch_headers sha256 staging_dir op info plan file index =
    rw
      (
        scan_decimal-decimal index,
        scan_decimal-decimal (length (chunk_payload file index)),
        scan_decimal-decimal (index * 65536),
        same_number (length (chunk_payload file index)),
        str_eq_refl (sha256 (chunk_payload file index)),
      )
      refl

module _ (staging_dir worker_dir node_id : String) (op : Operation) (info : InputFile) (plan : Plan)
    (file : List ℕ) (e : Env) where
  abbrev t : FileTransfer
  t = dispatched_transfer staging_dir op info plan

  -- The worker takes the command and then the messages.
  abbrev pub take_in : List ℕ → Env → World → Outcome ActiveTransfer
  take_in indices =
      accept_transfer node_id worker_dir (start_payload e.rfc3339 plan t)
      >>= deliver node_id (chunk_headers_of e.sha256 t file) file indices

  abbrev tells : Tells e.sha256 t.id (chunk_headers_of e.sha256 t file) file
  tells = read_chunk-dispatch_headers e.sha256 staging_dir op info plan file
