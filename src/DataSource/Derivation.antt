-- ===== src/DataSource/Derivation.antt =====
-- Blob derivation described on its own: what becomes of each datum of a block, in order, when the
-- provider's answers are known; and a driver that calls `next` until the block is exhausted.
use hokulea.Base.{
  ℕ, zero, suc, ◌≡◌, Bool, not, Option, none, some, List, [], ◌∷◌, String, Outcome, ok, err, panic,
  if◌then◌else◌, ◌==◌,
}
use hokulea.Cert.{ByteList}
use hokulea.Cert.Codec.{Alloy}
use hokulea.Cert.Commitment.{AltDaCommitment}
use hokulea.Errors.{HokuleaErrorKind, discard, HokuleaStatelessError}
use hokulea.Errors
use hokulea.Payload.{EncodedPayload, Checked, decode}
use hokulea.Provider.{EigenDaPreimageProvider}
use hokulea.Source.{parse, check_recency}
use hokulea.DataSource
use hokulea.DataSource.{DataSource, altda_derivation_version}
use hokulea.DataSource.Ethereum.{
  PipelineErrorKind, temporary, critical, eof, not_enough_data, provider, Block, EthereumSource,
}

-- The provider answers every query, and always in the same way.
pub record Answers {S E : Type 0} (fetcher : EigenDaPreimageProvider S E) : Type 0 where
  pub valid : AltDaCommitment → Bool
  pub payload : AltDaCommitment → EncodedPayload
  pub answers_validity :
      (c : AltDaCommitment) (s : S) → (s' : S) × (fetcher.get_validity c s ≡ (ok (valid c), s'))
  pub answers_payload :
      (c : AltDaCommitment) (s : S)
      → (s' : S) × (fetcher.get_encoded_payload c s ≡ (ok (payload c), s'))

-- What becomes of a datum: it yields data, it is skipped, or it stops the derivation with a critical
-- or a temporary error or a panic.
pub data Fate : Type 0 where
  yields : ByteList → Fate
  skips : Fate
  halts stalls : String → Fate
  crashes : Fate

abbrev pub payload_fate : Checked ByteList → Fate
payload_fate (ok p) = yields p
payload_fate (err e) = skips
payload_fate panic = crashes

pub data Ending : Type 0 where
  finished crashed unfinished : Ending
  failed : PipelineErrorKind → Ending

module _ (alloy : Alloy) (l1_block : ℕ) (valid : AltDaCommitment → Bool)
    (payload : AltDaCommitment → EncodedPayload) where
  abbrev pub checked_fate : AltDaCommitment → Outcome HokuleaErrorKind (Unit {0}) → Fate
  checked_fate c (ok u) = payload_fate (decode (payload c))
  checked_fate c (err (discard e)) = skips
  checked_fate c (err (Errors.temporary e)) = stalls e
  checked_fate c (err (Errors.critical e)) = halts e
  checked_fate c panic = crashes

  -- An invalid certificate is skipped, and so is one that is discarded as stale; the payload of any
  -- other is decoded, and skipped if that fails.
  abbrev pub cert_fate : AltDaCommitment → Fate
  cert_fate c = if valid c then checked_fate c (check_recency c l1_block) else skips

  abbrev pub parsed_fate : Checked AltDaCommitment → Fate
  parsed_fate (ok c) = cert_fate c
  parsed_fate (err e) = skips
  parsed_fate panic = crashes

  -- Data with another first byte passes through; no data, and a commitment that cannot be parsed, is
  -- skipped.
  abbrev pub item_fate : ByteList → Fate
  item_fate [] = skips
  item_fate (first ∷ rest) =
      if not (first == altda_derivation_version)
      then yields (first ∷ rest)
      else parsed_fate (parse alloy (first ∷ rest))

  abbrev pub add_fate : Fate → List ByteList × Ending → List ByteList × Ending
  add_fate (yields p) (out, ending) = (p ∷ out, ending)
  add_fate skips rest = rest
  add_fate (halts e) rest = ([], failed (critical (provider e)))
  add_fate (stalls e) rest = ([], failed (temporary (provider e)))
  add_fate crashes rest = ([], crashed)

  -- the data that a block's items come to, and how the derivation ends
  abbrev pub derivation : List ByteList → List ByteList × Ending
  derivation [] = ([], finished)
  derivation (item ∷ items) = add_fate (item_fate item) (derivation items)

module _ {T S E : Type 0} (alloy : Alloy) (ethereum : EthereumSource T)
    (fetcher : EigenDaPreimageProvider S E) (block : Block) (fuel : ℕ) where
  -- `calls` more calls of `next`, after the result of one: data is collected, `NotEnoughData` is
  -- tried again, `Eof` ends the block, any other error stops.
  unfoldable pub collect :
      ℕ → Option (Outcome PipelineErrorKind ByteList × DataSource T S) → List ByteList × Ending
  collect zero r = ([], unfinished)
  collect (suc calls) none = ([], unfinished)
  collect (suc calls) (some (ok item, ds)) =
      let (out, ending) = collect calls (DataSource.next alloy ethereum fetcher block fuel ds) in
      (item ∷ out, ending)
  collect (suc calls) (some (err (temporary not_enough_data), ds)) =
      collect calls (DataSource.next alloy ethereum fetcher block fuel ds)
  collect (suc calls) (some (err (temporary eof), ds)) = ([], finished)
  collect (suc calls) (some (err e, ds)) = ([], failed e)
  collect (suc calls) (some (panic, ds)) = ([], crashed)

  -- the data of a block, from a data source
  unfoldable pub drain : ℕ → DataSource T S → List ByteList × Ending
  unfolding collect
  drain calls ds = collect calls (DataSource.next alloy ethereum fetcher block fuel ds)
