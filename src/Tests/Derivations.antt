-- ===== src/Tests/Derivations.antt =====
-- The theorems on the data source, on blocks of one or two items.
use hokulea.Base.{
  ℕ, zero, suc, ◌≤◌, ◌<◌, ◌≡◌, ◌⊎◌, inl, inr, refl, String, true, Option, none, some, List, [], ◌∷◌,
  Outcome, ok, err, arith,
}
use hokulea.Cert.{ByteList}
use hokulea.Cert.Commitment.{to_rlp_bytes}
use hokulea.DataSource
use hokulea.DataSource.{DataSource, next}
use hokulea.DataSource.Derivation.{drain, derivation}
use hokulea.DataSource.Ethereum.{PipelineErrorKind, EthereumSource, IsQueue, Reopens}
use hokulea.DataSource.Late.{AnswersLate}
use hokulea.DataSource.Reopened.{drain_after_eof}
use hokulea.DataSource.Retries.{retry, retry_refines}
use hokulea.DataSource.Held.{next_frees}
use hokulea.DataSource.Refines.{drain_refines}
use hokulea.DataSource.Rounds.{next_total}
use hokulea.Errors
use hokulea.Errors.{HokuleaErrorKind}
use hokulea.Provider.{EigenDaPreimageProvider}
use hokulea.Tests.Alloy.{toy}
use hokulea.Tests.World.{
  commitment, block, ethereum, next_item, encoded, provider, provider_answers,
}

-- a block of one commitment and of data for the batcher itself
abbrev items : List ByteList
items = (1 ∷ to_rlp_bytes toy commitment) ∷ (0 ∷ 5 ∷ []) ∷ []

abbrev contents_of : Option (List ByteList) → List ByteList
contents_of none = items
contents_of (some left) = left

abbrev open_with :
    Outcome PipelineErrorKind ByteList × List ByteList
    → Outcome PipelineErrorKind ByteList × Option (List ByteList)
open_with (r, left) = (r, some left)

-- a source that loads the block at the first call, and is closed by `clear`
abbrev reopening : EthereumSource (Option (List ByteList))
reopening = record { next = λ b t. open_with (next_item b (contents_of t)); clear = λ t. none }

abbrev reopening-IsQueue : IsQueue reopening block
reopening-IsQueue = record {
  contents = contents_of;
  next_cons = λ t item items h. (some items, rw h, refl);
  next_nil = λ t h. (some [], rw h, refl);
}

abbrev reopening-Reopens : Reopens reopening block reopening-IsQueue
reopening-Reopens = record { whole = items; contents_clear = λ t. refl }

-- a provider that fails as often as its state says before it answers
abbrev late_answer : {A : Type 0} → A → ℕ → Outcome HokuleaErrorKind A × ℕ
late_answer a zero = (ok a, zero)
late_answer a (suc n) = (err (Errors.temporary "busy"), n)

abbrev late : EigenDaPreimageProvider ℕ HokuleaErrorKind
late = record {
  get_validity = λ c n. late_answer true n;
  get_encoded_payload = λ c n. late_answer encoded n;
  into = λ e. e;
}

asks_late :
    {A : Type 0} (a : A) (n : ℕ)
    → (n' : ℕ) × (((late_answer a n ≡ (ok a, n')) × (n' ≤ n))
        ⊎ ((e : HokuleaErrorKind) × (m : String) × (late_answer a n ≡ (err e, n'))
            × (e ≡ Errors.temporary m)
            × (n' < n)))
asks_late a zero = (zero, inl (refl, omega arith))
asks_late a (suc n) = (n, inr (Errors.temporary "busy", "busy", refl, refl, omega arith))

late_answers : AnswersLate late
late_answers = record {
  valid = λ c. true;
  payload = λ c. encoded;
  failures = λ n. n;
  asks_validity = λ c n. asks_late true n;
  asks_payload = λ c n. asks_late encoded n;
}

drain_refines_example :
    drain toy reopening provider block 3 3 (DataSource.new none 0)
    ≡ derivation toy block.number provider_answers.valid provider_answers.payload items
drain_refines_example =
    drain_refines toy reopening provider block provider_answers reopening-IsQueue 3 none 0 3
      (omega arith) (omega arith)

-- two failures, and five calls
retry_refines_example :
    retry toy reopening late block 3 5 (next toy reopening late block 3 (DataSource.new none 2))
    ≡ derivation toy block.number (λ c. true) (λ c. encoded) items
unfolding late_answers
retry_refines_example =
    retry_refines toy reopening late block late_answers reopening-IsQueue 3 none 2 5 (omega arith)
      (omega arith)

drain_after_eof_example :
    drain toy reopening provider block 3 3 (DataSource.new none 7)
    ≡ derivation toy block.number provider_answers.valid provider_answers.payload items
unfolding next DataSource.round DataSource.on_local DataSource.on_ethereum_error DataSource.clear
    DataSource.new
drain_after_eof_example =
    drain_after_eof toy reopening provider block provider_answers reopening-IsQueue
      reopening-Reopens 3 1 (DataSource.new (some []) 7) (DataSource.new none 7) 3 refl
      (omega arith) (omega arith)

next_total_example :
    (result : Outcome PipelineErrorKind ByteList × DataSource (Option (List ByteList)) ℕ) × (next
        toy reopening provider block 3
        (DataSource.new none 0)
      ≡ some result)
unfolding DataSource.new
next_total_example =
    next_total toy reopening provider block reopening-IsQueue 3 (DataSource.new none 0)
      (omega arith)

next_frees_example : (DataSource.new {T = List ByteList} {S = ℕ} [] 0).altda_commitment ≡ none
unfolding next DataSource.round DataSource.on_local DataSource.on_local_data DataSource.new
next_frees_example =
    next_frees toy ethereum provider block 1 (DataSource.new ((0 ∷ 5 ∷ []) ∷ []) 0)
      (DataSource.new [] 0) (0 ∷ 5 ∷ []) refl
