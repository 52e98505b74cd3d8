-- ===== src/Host/Stored.antt =====
-- The key-value store after the loop of `store_encoded_payload` (bin/host/src/handler.rs).
use hokulea.Base.{
  ℕ, zero, suc, ◌+◌, ◌*◌, ◌/◌, ◌≤◌, ◌<◌, ◌≡◌, ◌≢◌, sym, ap, ◌∙◌, Option, some, ok, >>=-eq-ok,
  ok-injective, length, take, drop, arith, ltb, if◌then◌else◌, lt→ltb, replicate, Bool-cases, inl,
  inr, ◌==◌, ==→eq, ==→ne,
}
use hokulea.Cert.{ByteList}
use hokulea.Cert.Codec.{Alloy}
use hokulea.Host.{KeyValueStore, store_field_elements}
use hokulea.Oracle.{with_index}
use hokulea.Oracle.Fetch.{element}
use hokulea.Oracle.Keys.{with_index-with_index, length-with_index}

-- The documented behaviour of the store: what is set is found, and nothing else changes.
pub record IsStore {V K : Type 0} (store : KeyValueStore V K) : Type 0 where
  pub find : V → K → Option ByteList
  pub find_set :
      (k : K) (bytes : ByteList) (v v' : V) → store.set k bytes v ≡ ok v' → find v' k ≡ some bytes
  pub find_set_other :
      (k other : K) (bytes : ByteList) (v v' : V)
      → store.set k bytes v ≡ ok v'
      → other ≢ k
      → find v' other ≡ find v other

module _ {V K : Type 0} (alloy : Alloy) (global_generic : ByteList → K) (store : KeyValueStore V K)
    (is_store : IsStore store) where
  abbrev key_at : ByteList → ℕ → K
  key_at key i = global_generic (alloy.keccak256 (with_index key i))

  -- the loop leaves other keys as they are
  pub store_field_elements_other :
      (left i : ℕ) (key bytes : ByteList) (kv kv' : V) (other : K)
      → 72 ≤ length key
      → store_field_elements alloy global_generic store left i key bytes kv ≡ ok kv'
      → ((j : ℕ) → i ≤ j → j < i + left → other ≢ key_at key j)
      → is_store.find kv' other ≡ is_store.find kv other
  unfolding store_field_elements
  store_field_elements_other zero i key bytes kv kv' other hk h apart =
      ap (λ v. is_store.find v other) (sym (ok-injective h))
  store_field_elements_other (suc left) i key bytes kv kv' other hk h apart =
      let (kv1, e, h1) = >>=-eq-ok (store.set (key_at key i) _ kv) _ h in
      store_field_elements_other left (suc i) (with_index key i) bytes kv1 kv' other
        (length-with_index key i hk) h1
        (λ j hi hj. rewritten j (apart j (omega arith) (omega arith)))
      ∙ is_store.find_set_other (key_at key i) other _ kv kv1 e
          (apart i (omega arith) (omega arith))
    where
      rewritten : (j : ℕ) → other ≢ key_at key j → other ≢ key_at (with_index key i) j
      rewritten j ne e =
          ne (e ∙ ap (λ a. global_generic (alloy.keccak256 a)) (with_index-with_index key i j hk))

  -- the key of a later round is the same from the key that this round has left
  key_at-with_index :
      (key : ByteList) (i j : ℕ) → 72 ≤ length key → key_at (with_index key i) j ≡ key_at key j
  key_at-with_index key i j hk =
      ap (λ a. global_generic (alloy.keccak256 a)) (with_index-with_index key i j hk)

  -- a round stores the field element at its index
  element_at :
      (bytes : ByteList) (i : ℕ)
      → i < length bytes / 32
      → (if ltb i (length bytes / 32) then take 32 (drop (i * 32) bytes) else replicate 32 0)
        ≡ element bytes i
  element_at bytes i h = rw (lt→ltb i (length bytes / 32) h)

  -- the loop stores each field element under its key
  pub store_field_elements_at :
      (left i : ℕ) (key bytes : ByteList) (kv kv' : V) (j : ℕ)
      → 72 ≤ length key
      → i + left ≤ length bytes / 32
      → store_field_elements alloy global_generic store left i key bytes kv ≡ ok kv'
      → ((a b : ℕ) → a < i + left → b < i + left → key_at key a ≡ key_at key b → a ≡ b)
      → i ≤ j
      → j < i + left
      → is_store.find kv' (key_at key j) ≡ some (element bytes j)
  unfolding store_field_elements
  store_field_elements_at zero i key bytes kv kv' j hk hn h apart hi hj = absurd (omega arith)
  store_field_elements_at (suc left) i key bytes kv kv' j hk hn h apart hi hj =
      let (kv1, e, h1) = >>=-eq-ok (store.set (key_at key i) _ kv) _ h in
      let stored = is_store.find_set (key_at key i) _ kv kv1 e in
      let key' = with_index key i in
      let shift : (a : ℕ) → key_at key' a ≡ key_at key a = λ a. key_at-with_index key i a hk in
      elim (Bool-cases (i == j)) [
        | inl same ↦
            let ij : i ≡ j = ==→eq i j same in
            let kept =
              store_field_elements_other left (suc i) key' bytes kv1 kv' (key_at key i)
                (length-with_index key i hk) h1
                (λ a ha ha' clash.
                  let ia : i ≡ a = apart i a (omega arith) (omega arith) (clash ∙ shift a) in
                  absurd (omega arith)) in
            rw (← ij) (kept ∙ stored ∙ ap some (element_at bytes i (omega arith)))
        | inr later ↦
            let ij = ==→ne i j later in
            ap (is_store.find kv') (sym (shift j))
            ∙ store_field_elements_at left (suc i) key' bytes kv1 kv' j (length-with_index key i hk)
                (omega arith) h1
                (λ a b ha hb clash.
                  apart a b (omega arith) (omega arith) (sym (shift a) ∙ clash ∙ shift b))
                (omega arith) (omega arith)
      ]
