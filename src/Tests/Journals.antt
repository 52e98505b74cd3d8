-- ===== src/Tests/Journals.antt =====
-- The theorem on journals, at a codec for them.
use hokulea.Base.{
  ℕ, zero, suc, ◌≡◌, refl, sym, ap, ◌∙◌, Bool, true, false, some, List, [], ◌∷◌, ◌++◌, map, Outcome,
  ok, ok-injective,
}
use hokulea.Canoe.{Claims}
use hokulea.Canoe.Binding.{statement, to_journals_bytes-binding}
use hokulea.Canoe.ChainSpec.{Reth, derive_chain_spec_id}
use hokulea.Canoe.Journal.{
  Journal, Sp1, to_journals_bytes, journal, derive_chain_config_hash, rsp_genesis_hash,
  hash_chain_config,
}
use hokulea.Cert.{ByteList}
use hokulea.Tests.Alloy.{toy, toy-IsAlloy}
use hokulea.Tests.Codec.{Codec, Pair, number, pair, list, bytes, iso}
use hokulea.Tests.World.{commitment, commitment-IsEigenDa}

abbrev pub number_of : Bool → ℕ
number_of true = 1
number_of false = 0

abbrev pub bool_of : ℕ → Bool
bool_of zero = false
bool_of (suc n) = true

pub bool_of-number_of : (b : Bool) → bool_of (number_of b) ≡ b
bool_of-number_of true = refl
bool_of-number_of false = refl

abbrev pub bool : Codec Bool
bool = iso number_of bool_of bool_of-number_of number

abbrev pub Fields : Type 0
Fields =
    Pair ℕ
      (Pair ByteList (Pair ByteList (Pair ByteList (Pair Bool (Pair ℕ (Pair ByteList ByteList))))))

abbrev pub fields : Journal → Fields
fields j = record {
  left = j.block_number;
  right = record {
    left = j.blockhash;
    right = record {
      left = j.cert_verifier_address;
      right = record {
        left = j.input;
        right = record {
          left = j.output;
          right = record {
            left = j.l1_chain_id;
            right = record { left = j.chain_config_hash; right = j.chain_spec_hash };
          };
        };
      };
    };
  };
}

abbrev pub of_fields : Fields → Journal
of_fields p = record {
  block_number = p.left;
  blockhash = p.right.left;
  cert_verifier_address = p.right.right.left;
  input = p.right.right.right.left;
  output = p.right.right.right.right.left;
  l1_chain_id = p.right.right.right.right.right.left;
  chain_config_hash = p.right.right.right.right.right.right.left;
  chain_spec_hash = p.right.right.right.right.right.right.right;
}

abbrev pub journals : Codec (List Journal)
journals = list (
    iso fields of_fields (λ j. refl)
      (pair number
        (pair bytes (pair bytes (pair bytes (pair bool (pair number (pair bytes bytes))))))))

abbrev pub reth : Reth
reth = record {
  ChainSpec = ℕ;
  SpecId = ℕ;
  mainnet = 1;
  sepolia = 2;
  holesky = 3;
  kurtosis = 4;
  spec_by_timestamp_and_block_number = λ spec timestamp number. spec;
  genesis_hash = λ spec. spec ∷ [];
}

abbrev pub sp1 : Sp1 reth
sp1 = record {
  Genesis = ℕ;
  spec_id_to_string = λ s. "PRAGUE";
  abi_encode_packed = λ chain fork. chain ∷ [];
  genesis_try_from = λ chain. ok chain;
  serialize_genesis = λ g. ok (g ∷ []);
  serialize_journals = λ js. ok (journals.put js);
  sha256 = λ bs. bs;
  verify_sp1_proof = λ key digest. ok tt;
}

some-injective {ℓ} : {A : Type ℓ} {a b : A} → some a ≡ some b → a ≡ b
some-injective h = cc

put-injective : (js js' : List Journal) → journals.put js ≡ journals.put js' → js ≡ js'
put-injective js js' h =
    ap (λ t. t.0)
      (some-injective (
        sym (journals.read-put js [])
        ∙ ap (λ b. journals.read (b ++ [])) h
        ∙ journals.read-put js' []))

pub serialize-injective :
    (js js' : List Journal) (bs : ByteList)
    → sp1.serialize_journals js ≡ ok bs
    → sp1.serialize_journals js' ≡ ok bs
    → js ≡ js'
serialize-injective js js' bs h h' = put-injective js js' (ok-injective h ∙ sym (ok-injective h'))

-- the same claim at two timestamps
abbrev claims : ℕ → Claims
claims timestamp =
    (
      commitment,
      record {
        claimed_validity = true;
        l1_head_block_hash = 3 ∷ [];
        l1_head_block_number = 9;
        l1_head_block_timestamp = timestamp;
        l1_chain_id = 1;
        verifier_address = 4 ∷ [];
      },
    )
    ∷ []

abbrev or_empty {ℓ} : {E : Type ℓ} → Outcome E ByteList → ByteList
or_empty (ok b) = b
or_empty _ = []

to_journals_bytes-binding_example : map statement (claims 10) ≡ map statement (claims 20)
unfolding to_journals_bytes journal derive_chain_config_hash rsp_genesis_hash hash_chain_config
    derive_chain_spec_id
to_journals_bytes-binding_example =
    to_journals_bytes-binding toy toy-IsAlloy reth sp1 serialize-injective (claims 10) (claims 20)
      (or_empty (to_journals_bytes toy reth sp1 (claims 10))) (commitment-IsEigenDa, tt)
      (commitment-IsEigenDa, tt) refl refl
