-- ===== src/DataSource/Ethereum.antt =====
-- What the data source takes from kona: the pipeline's errors and the Ethereum source. `other`
-- stands for the variants that the code neither makes nor tests.
use hokulea.Base.{ℕ, String, ◌≡◌, List, [], ◌∷◌, ok, err}
use hokulea.Cert.{ByteList}
use hokulea.Provider.{Method}

pub data PipelineError : Type 0 where
  eof not_enough_data : PipelineError
  provider : String → PipelineError
  other : ℕ → PipelineError

pub data PipelineErrorKind : Type 0 where
  temporary critical : PipelineError → PipelineErrorKind
  other : ℕ → PipelineErrorKind

-- `BlockInfo`, of which only the number is used, with the batcher's address
pub record Block : Type 0 where
  pub number : ℕ
  pub batcher_addr : ByteList

-- `EthereumDataSource` as an object with state `T`
pub record EthereumSource (T : Type 0) : Type 0 where
  pub next : Block → Method T PipelineErrorKind ByteList
  pub clear : T → T

-- The documented behaviour of the source within one block: it yields the data of the batcher's
-- transactions in order, one at a call, and then says `Eof`. The contents of a source that is not open
-- are those that it loads at its next call. Nothing is supposed here of `clear`.
pub record IsQueue {T : Type 0} (source : EthereumSource T) (block : Block) : Type 0 where
  pub contents : T → List ByteList
  pub next_cons :
      (t : T) (item : ByteList) (items : List ByteList)
      → contents t ≡ item ∷ items
      → (t' : T) × (source.next block t ≡ (ok item, t')) × (contents t' ≡ items)
  pub next_nil :
      (t : T)
      → contents t ≡ []
      → (t' : T) × (source.next block t ≡ (err (temporary eof), t')) × (contents t' ≡ [])

-- A source that is cleared is closed: the next call opens the block again, from its first datum.
pub record Reopens {T : Type 0} (source : EthereumSource T) (block : Block)
    (queue : IsQueue source block) : Type 0 where
  pub whole : List ByteList
  pub contents_clear : (t : T) → queue.contents (source.clear t) ≡ whole
