-- ===== src/Elastic.antt =====
-- internal/infrastructure/elasticsearch/document.go and indexer.go: the documents for the search index,
-- and the indexer's channel, its two workers and its dead letters, as the steps that the goroutines
-- can take in any order. The flusher's buffer is left out: nothing puts a document into it.
pub mod Conserved
pub mod Bounded
use update_service.Base.{
  ℕ, zero, suc, ◌+◌, ◌-◌, ◌/◌, String, Bool, true, false, ◌&&◌, Option, none, some, List, [], ◌∷◌,
  ◌++◌, ltb, ◌==◌, if◌then◌else◌, length,
}
use update_service.Domain.Operation.{Operation, InputFile}
use update_service.Domain.Text.{status_text}
use update_service.Domain.Event.{OperationEvent, event_type_string}

-- `CompletedDocument`
pub record CompletedDocument : Type 0 where
  pub operation_id : String
  pub node_id : String
  pub update_type : String
  pub status : String
  pub duration_ms : ℕ
  pub file_size : ℕ
  pub started_at : ℕ
  pub completed_at : ℕ
  pub processor : String
  pub event_type : String
  pub actor_node_id : String
  pub issued_at : ℕ
  pub client_ref : String
  pub retry_count : ℕ
  pub max_attempts : ℕ
  pub input_file_name : String
  pub input_file_size : ℕ

abbrev size_of : Option InputFile → ℕ
size_of none = 0
size_of (some f) = f.size_bytes

abbrev name_of : Option InputFile → String
name_of none = ""
name_of (some f) = f.file_name

-- `BuildCompletedDocument`: an operation is updated no earlier than it is created.
unfoldable pub build_completed_document : Operation → OperationEvent → String → CompletedDocument
unfolding status_text event_type_string
build_completed_document op evt node_id =
    let completed_at = if ltb op.created_at evt.issued_at then evt.issued_at else op.updated_at in
    record {
      operation_id = op.id;
      node_id = node_id;
      update_type = "PROCESS_UPDATE";
      status = status_text op.status;
      duration_ms = (completed_at - op.created_at) / 1000000;
      file_size = size_of op.input_file;
      started_at = op.created_at;
      completed_at = completed_at;
      processor = op.processor;
      event_type = event_type_string evt.event_type;
      actor_node_id = evt.actor_node_id;
      issued_at = evt.issued_at;
      client_ref = op.client_reference;
      retry_count = op.retry_count;
      max_attempts = op.max_attempts;
      input_file_name = name_of op.input_file;
      input_file_size = size_of op.input_file;
    }

-- `defaultChannelCap` and `defaultWorkers`
abbrev pub channel_cap : ℕ
channel_cap = 1000

abbrev pub workers : ℕ
workers = 2

-- `Indexer`: the channel, what the workers have taken out of it, the workers that still run, whether
-- it is stopped; and where the documents end: in the index, in the file of dead letters, or nowhere,
-- if that file cannot be written.
pub record Indexer : Type 0 where
  pub channel : List CompletedDocument
  pub taken : List CompletedDocument
  pub running : ℕ
  pub closed : Bool
  pub indexed : List CompletedDocument
  pub dead_letters : List CompletedDocument
  pub lost : List CompletedDocument

-- `NewIndexer` and `Start`
unfoldable pub start : Indexer
start = record {
  channel = [];
  taken = [];
  running = workers;
  closed = false;
  indexed = [];
  dead_letters = [];
  lost = [];
}

-- `dlqFromDoc`, and whether the file can be written.
unfoldable pub dlq_from_doc : Bool → CompletedDocument → Indexer → Indexer
dlq_from_doc true doc i = record i { dead_letters = doc ∷ i.dead_letters }
dlq_from_doc false doc i = record i { lost = doc ∷ i.lost }

-- `Index`: a full channel sends the document to the dead letters.
unfoldable pub index_doc : Bool → CompletedDocument → Indexer → Indexer
unfolding dlq_from_doc
index_doc is_writable doc i =
    if ltb (length i.channel) channel_cap
    then record i { channel = i.channel ++ (doc ∷ []) }
    else dlq_from_doc is_writable doc i

abbrev pub received : List CompletedDocument → Indexer → Indexer
received [] i = i
received (doc ∷ rest) i = record i { channel = rest; taken = doc ∷ i.taken }

-- A worker that runs and has no document takes one: in its loop, or in `drain`.
unfoldable pub receive : Indexer → Indexer
receive i = if ltb (length i.taken) i.running then received i.channel i else i

abbrev pub settled :
    Bool → Bool → List CompletedDocument → List CompletedDocument → Indexer → Indexer
settled accepted is_writable kept [] i = i
settled true is_writable kept (doc ∷ rest) i = record i {
  taken = kept ++ rest;
  indexed = doc ∷ i.indexed;
}
settled false is_writable kept (doc ∷ rest) i =
    dlq_from_doc is_writable doc (record i { taken = kept ++ rest })

abbrev pub finished : Bool → Bool → Bool → List CompletedDocument → Indexer → Indexer
finished true accepted is_writable docs i = settled accepted is_writable [] docs i
finished false accepted is_writable [] i = i
finished false accepted is_writable (doc ∷ rest) i = settled accepted is_writable (doc ∷ []) rest i

-- The client answers the worker that has the last document, or the one before.
unfoldable pub finish : Bool → Bool → Bool → Indexer → Indexer
unfolding dlq_from_doc
finish first accepted is_writable i = finished first accepted is_writable i.taken i

-- `Stop` closes; a worker that sees it ends once the channel is empty.
unfoldable pub close : Indexer → Indexer
close i = record i { closed = true }

unfoldable pub quit : Indexer → Indexer
quit i =
    if i.closed && ((length i.channel == 0) && ltb (length i.taken) i.running)
    then record i { running = i.running - 1 }
    else i

pub data Step : Type 0 where
  index_step : Bool → CompletedDocument → Step
  receive_step close_step quit_step : Step
  finish_step : Bool → Bool → Bool → Step

unfoldable pub step : Step → Indexer → Indexer
unfolding index_doc receive finish close quit
step (index_step is_writable doc) i = index_doc is_writable doc i
step receive_step i = receive i
step (finish_step first accepted is_writable) i = finish first accepted is_writable i
step close_step i = close i
step quit_step i = quit i

unfoldable pub run : List Step → Indexer → Indexer
unfolding step
run [] i = i
run (s ∷ ss) i = run ss (step s i)

-- The documents that are handed over.
unfoldable pub handed : List Step → List CompletedDocument
handed [] = []
handed (index_step is_writable doc ∷ ss) = doc ∷ handed ss
handed (_ ∷ ss) = handed ss
