-- ===== src/Tests/Elastic.antt =====
-- Runs of the indexer.
use update_service.Base.{ℕ, ◌≡◌, refl, true, List, [], ◌∷◌, map}
use update_service.Elastic.{
  CompletedDocument, start, index_doc, receive, finish, close, quit, Step, index_step, receive_step,
  close_step, quit_step, finish_step, step, run, build_completed_document,
}
use update_service.Tests.Worlds.{next_operation}
use update_service.Tests.Worker.{told}

abbrev document : ℕ → CompletedDocument
document n = record (build_completed_document next_operation told "self") { issued_at = n }

-- Two documents of one operation; the worker with the first one is the slower.
abbrev overtaking : List Step
overtaking =
    index_step true (document 1)
    ∷ index_step true (document 2)
    ∷ receive_step
    ∷ receive_step
    ∷ finish_step true true true
    ∷ finish_step true true true
    ∷ []

abbrev issued : List CompletedDocument → List ℕ
issued docs = map CompletedDocument.issued_at docs

-- The older document is indexed last.
overtaken : issued (run overtaking start).indexed ≡ 1 ∷ 2 ∷ []
unfolding run step index_doc receive finish start
overtaken = refl

-- A document that is handed over when the workers have ended stays in the channel.
stranded :
    issued
      (run
        (close_step ∷ quit_step ∷ quit_step ∷ index_step true (document 3) ∷ receive_step ∷ [])
        start).channel
    ≡ 3 ∷ []
unfolding run step index_doc receive close quit start
stranded = refl
