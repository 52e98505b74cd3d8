-- ===== src/Cert/Codec.antt =====
-- What the certificate code takes from alloy: the RLP codec that `RlpEncodable` and `RlpDecodable`
-- derive for the three certificates, and `keccak256`. They are parameters. A decoding error is held
-- as its display text.
use hokulea.Base.{String, ◌≡◌, ◌≢◌, ◌<◌, ◌++◌, Outcome, ok, panic, length}
use hokulea.Cert.{ByteList, EigenDaCertV2, EigenDaCertV3, EigenDaCertV4}

-- A codec for one type: `encode` appends to an empty buffer, `decode` reads the front of its input
-- and leaves what follows.
pub record Rlp (A : Type 0) : Type 0 where
  pub encode : A → ByteList
  pub decode : ByteList → Outcome String A

-- A decoder reads back what the encoder wrote, whatever follows it (RLP items carry their length),
-- it returns an error and does not panic on other input, and an item has at least one byte.
pub record IsRlp {A : Type 0} (c : Rlp A) : Type 0 where
  pub decode-encode : (a : A) (rest : ByteList) → c.decode (c.encode a ++ rest) ≡ ok a
  pub decode-ne-panic : (bs : ByteList) → c.decode bs ≢ panic
  pub length-encode : (a : A) → 0 < length (c.encode a)

pub record Alloy : Type 0 where
  pub rlp_v2 : Rlp EigenDaCertV2
  pub rlp_v3 : Rlp EigenDaCertV3
  pub rlp_v4 : Rlp EigenDaCertV4
  pub keccak256 : ByteList → ByteList

pub record IsAlloy (a : Alloy) : Type 0 where
  pub is_rlp_v2 : IsRlp a.rlp_v2
  pub is_rlp_v3 : IsRlp a.rlp_v3
  pub is_rlp_v4 : IsRlp a.rlp_v4
  pub length-keccak256 : (bs : ByteList) → length (a.keccak256 bs) ≡ 32
