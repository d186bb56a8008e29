-- ===== src/Elastic/Bounded.antt =====
-- indexer.go: what the indexer holds, and where the documents that it is given are.
use update_service.Base.{◌≤◌, length}
use update_service.Elastic.{Indexer, workers, channel_cap}

-- The channel holds as many documents as it may, and a worker one at most.
abbrev pub IsBounded : Indexer → Type 0
IsBounded i =
    (length i.channel ≤ channel_cap) × (length i.taken ≤ i.running) × (i.running ≤ workers)
