-- ===== src/Tests/Hosts.antt =====
-- The theorems on the host, with a store that is an association list.
use native.Mathlib.Decide.{ℕ_discrete}
use hokulea.Base.{
  ℕ, zero, suc, ◌^◌, ◌<◌, ◌≡◌, inl, inr, refl, sym, ap, ◌∙◌, true, Option, none, some, List, [],
  ◌∷◌, Outcome, ok, err, panic, ◌==◌, if◌then◌else◌, length, eq→==, ok-injective, arith,
}
use hokulea.Base.Bytes.{to_be_bytes}
use hokulea.Cert.{ByteList}
use hokulea.Cert.Commitment.{
  to_rlp_bytes, get_num_field_element, digest_template, to_digest, try_from, decode_cert,
}
use hokulea.Host.{
  KeyValueStore, fetch_eigenda_hint, store_cert_validity, store_encoded_payload, check_chunks,
  store_field_elements,
}
use hokulea.Host.Cache.{
  Online, new_http, get_validity, get_encoded_payload, get_encoded_payload-get_validity,
  get_or_fetch_payload, fetch_uncached, remember,
}
use hokulea.Host.Proxy.{Http, Response, fetch_data_from_proxy, stage_of_response}
use hokulea.Host.Status.{HostError, ProxyDerivationStage}
use hokulea.Host.Stored.{IsStore}
use hokulea.Oracle
use hokulea.Oracle.{Kona, PreimageOracleError, other, validity_address, with_index}
use hokulea.Oracle.Agreement.{
  get_validity-fetch_eigenda_hint, get_encoded_payload-fetch_eigenda_hint,
}
use hokulea.Oracle.Stored.{IsAddress, NoCollision, Serves}
use hokulea.Tests.Alloy.{toy, toy-IsAlloy}
use hokulea.Tests.World.{commitment, commitment-IsEigenDa, encoded, four_bytes}

abbrev Store : Type 0
Store = List (ByteList × ByteList)

unfoldable key_discrete : Discrete ByteList
key_discrete = hlevel ℕ_discrete

abbrev find_at : {A : Type 0} → Dec A → ByteList → Option ByteList → Option ByteList
find_at (yes a) bytes rest = some bytes
find_at (no na) bytes rest = rest

abbrev find : Store → ByteList → Option ByteList
find [] k = none
find ((k', bytes) ∷ v) k = find_at (key_discrete k' k) bytes (find v k)

abbrev store : KeyValueStore Store ByteList
store = record { set = λ k bytes v. ok ((k, bytes) ∷ v) }

find_at-yes :
    {A : Type 0} (d : Dec A) (a : A) (bytes : ByteList) (rest : Option ByteList)
    → find_at d bytes rest ≡ some bytes
find_at-yes (yes a) b bytes rest = refl
find_at-yes (no na) b bytes rest = absurd (na b)

find_at-no :
    {A : Type 0} (d : Dec A) (na : ¬ A) (bytes : ByteList) (rest : Option ByteList)
    → find_at d bytes rest ≡ rest
find_at-no (yes a) nb bytes rest = absurd (nb a)
find_at-no (no na) nb bytes rest = refl

abbrev store-IsStore : IsStore store
store-IsStore = record {
  find = find;
  find_set = λ k bytes v v' h.
      rw (← ok-injective h) (find_at-yes (key_discrete k k) refl bytes (find v k));
  find_set_other = λ k other bytes v v' h ne.
      rw (← ok-injective h)
        (find_at-no (key_discrete k other) (λ e. ne (sym e)) bytes (find v other));
}

-- the proxy's answer: the payload of the concrete commitment
abbrev stage : ProxyDerivationStage
stage = record { is_valid_cert = true; pass_recency_check = true; encoded_payload = four_bytes }

abbrev proxy : ByteList → Outcome HostError ProxyDerivationStage
proxy bytes = ok stage

-- the store when the handler has run on the commitment
abbrev or_unchanged : Store → Outcome HostError Store → Store
or_unchanged v (ok v') = v'
or_unchanged v (err e) = v
or_unchanged v panic = v

abbrev handle : Store → Outcome HostError Store
handle v = fetch_eigenda_hint toy (λ b. b) store (to_rlp_bytes toy commitment) proxy v

abbrev answer : Store → Option ByteList → Outcome PreimageOracleError ByteList × Store
answer v none = (err (other "missing"), v)
answer v (some bytes) = (ok bytes, v)

abbrev answer_exact : ℕ → Store → Option ByteList → Outcome PreimageOracleError ByteList × Store
answer_exact n v none = (err (other "missing"), v)
answer_exact n v (some bytes) = (if length bytes == n then ok bytes else err (other "length"), v)

abbrev kona : Kona Store ByteList ℕ
kona = record {
  global_generic = λ b. b;
  hint_name = λ h. "l1-block";
  hex_encode = λ bytes. "00";
  write = λ hint v. (ok tt, or_unchanged v (handle v));
  get = λ k v. answer v (find v k);
  get_exact = λ k n v. answer_exact n v (find v k);
}

abbrev kona-Serves : Serves kona store store-IsStore
kona-Serves = record {
  view = λ t. t;
  reads = λ k t bytes h. rw h;
  reads_exact = λ k t n bytes h l. rw (h, eq→== (length bytes) n l);
}

small : get_num_field_element commitment < 2 ^ 32
unfolding get_num_field_element
small = omega arith

-- a byte of a hash
abbrev byte_at : ℕ → ByteList → ℕ
byte_at i [] = 0
byte_at zero (b ∷ bs) = b
byte_at (suc i) (b ∷ bs) = byte_at i bs

abbrev first_of : ByteList → ℕ
first_of a = byte_at 0 (toy.keccak256 a)

abbrev last_of : ByteList → ℕ
last_of a = byte_at 31 (toy.keccak256 a)

validity_first : first_of (validity_address toy commitment) ≡ 1
unfolding validity_address digest_template to_digest to_rlp_bytes
validity_first = refl

element_first : (i : ℕ) → i < 2 → first_of (with_index (digest_template toy commitment) i) ≡ 0
unfolding with_index digest_template to_digest to_be_bytes to_rlp_bytes
element_first zero h = refl
element_first (suc zero) h = refl
element_first (suc (suc i)) h = absurd (omega arith)

element_last : (i : ℕ) → i < 2 → last_of (with_index (digest_template toy commitment) i) ≡ i
unfolding with_index digest_template to_digest to_be_bytes to_rlp_bytes
element_last zero h = refl
element_last (suc zero) h = refl
element_last (suc (suc i)) h = absurd (omega arith)

clash :
    (a b : ByteList) (f : ByteList → ℕ) (m n : ℕ)
    → toy.keccak256 a ≡ toy.keccak256 b
    → f (toy.keccak256 a) ≡ m
    → f (toy.keccak256 b) ≡ n
    → m ≡ n
clash a b f m n h e e' = sym e ∙ ap f h ∙ e'

apart :
    (a b : ByteList)
    → IsAddress toy commitment a
    → IsAddress toy commitment b
    → toy.keccak256 a ≡ toy.keccak256 b
    → a ≡ b
unfolding get_num_field_element
apart a b (inl e) (inl f) h = e ∙ sym f
apart a b (inl e) (inr (i, l, f)) h =
    let q : ◌≡◌ {A = ℕ} 1 0 =
      clash a b (byte_at 0) 1 0 h (ap first_of e ∙ validity_first)
        (ap first_of f ∙ element_first i l) in
    absurd (omega arith)
apart a b (inr (i, l, e)) (inl f) h =
    let q : ◌≡◌ {A = ℕ} 0 1 =
      clash a b (byte_at 0) 0 1 h (ap first_of e ∙ element_first i l)
        (ap first_of f ∙ validity_first) in
    absurd (omega arith)
apart a b (inr (i, l, e)) (inr (j, l', f)) h =
    let q : i ≡ j =
      clash a b (byte_at 31) i j h (ap last_of e ∙ element_last i l)
        (ap last_of f ∙ element_last j l') in
    e ∙ ap (with_index (digest_template toy commitment)) q ∙ sym f

no_collision : NoCollision toy kona.global_generic commitment
no_collision = apart

ran : handle [] ≡ ok (or_unchanged [] (handle []))
unfolding fetch_eigenda_hint store_cert_validity store_encoded_payload check_chunks
    store_field_elements get_num_field_element try_from to_rlp_bytes decode_cert
ran = refl

get_validity-fetch_eigenda_hint_example :
    Oracle.get_validity toy kona commitment [] ≡ (ok true, or_unchanged [] (handle []))
get_validity-fetch_eigenda_hint_example =
    get_validity-fetch_eigenda_hint toy toy-IsAlloy kona store store-IsStore kona-Serves proxy
      commitment commitment-IsEigenDa small no_collision stage refl [] (or_unchanged [] (handle []))
      refl ran

get_encoded_payload-fetch_eigenda_hint_example :
    Oracle.get_encoded_payload toy kona commitment [] ≡ (ok encoded, or_unchanged [] (handle []))
unfolding get_num_field_element
get_encoded_payload-fetch_eigenda_hint_example =
    get_encoded_payload-fetch_eigenda_hint toy toy-IsAlloy kona store store-IsStore kona-Serves
      proxy commitment commitment-IsEigenDa small no_collision stage refl []
      (or_unchanged [] (handle [])) refl ran refl refl refl

-- a proxy that answers every request with the payload
abbrev response : Response
response = record { status = 200; is_success = true; bytes = ok four_bytes; json = err "no json" }

abbrev http : Http ℕ
http = record { Url = ByteList; join = λ b. ok b; send = λ url n. (ok response, suc n) }

-- the provider after one request
abbrev answered : Online ℕ
answered = record { inner = 1; last_entry = some (commitment, stage) }

get_encoded_payload-get_validity_example :
    (s : ProxyDerivationStage) × (answered.last_entry ≡ some (commitment, s))
    × (s.is_valid_cert ≡ true)
    × (get_encoded_payload toy http (λ e. "failed") commitment answered
        ≡ (ok (record { encoded_payload = s.encoded_payload }), answered))
unfolding get_validity get_or_fetch_payload fetch_uncached remember fetch_data_from_proxy
    stage_of_response new_http
get_encoded_payload-get_validity_example =
    get_encoded_payload-get_validity toy http (λ e. "failed") commitment (new_http 0) answered true
      refl
