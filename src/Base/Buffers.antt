-- ===== src/Base/Buffers.antt =====
-- Byte buffers that are written in place: `vec![0u8; n]` and `buf[start..end].copy_from_slice(v)`.
use Prim.Native.Nat.{ℕ, ◌+◌, ◌-◌, ◌≤◌}
use mathlib.Core.Path.{◌≡◌, ap, sym, ◌∙◌}
use mathlib.Core.Bool.{true, ◌&&◌}
use mathlib.Core.List.{List, ◌++◌, append_assoc}
use native.Mathlib.Omega.{arith}
use hokulea.Base.Tests.{◌==◌, leb, if◌then◌else◌}
use hokulea.Base.Lists.{
  length, length-append, length-replicate, replicate-add, take, drop, replicate, take-append,
  drop-append,
}
use hokulea.Base.Fallible.{Outcome, ok, panic}

module _ {ℓ} {A : Type ℓ} where
  -- It panics if the range is out of bounds, or not as long as what is written.
  unfoldable pub copy_from_slice {κ} : {E : Type κ} → List A → ℕ → ℕ → List A → Outcome E (List A)
  copy_from_slice buf start end v =
      if leb start end && (leb end (length buf) && (length v == end - start))
      then ok (take start buf ++ (v ++ drop end buf))
      else panic

  -- A write over the middle of a buffer of three parts.
  pub copy_from_slice_parts {κ} :
      {E : Type κ} (before middle after v : List A) (start end : ℕ)
      → length before ≡ start
      → start + length middle ≡ end
      → length v ≡ length middle
      → copy_from_slice {E = E} (before ++ (middle ++ after)) start end v
        ≡ ok (before ++ (v ++ after))
  unfolding copy_from_slice
  copy_from_slice_parts before middle after v start end hs he hv =
      rw (inside, take-append start before (middle ++ after) hs, dropped)
    where
      inside :
          (leb start end
            && (leb end (length (before ++ (middle ++ after))) && (length v == end - start)))
          ≡ true
      inside = ground (arith, length-append before (middle ++ after), length-append middle after)

      dropped : drop end (before ++ (middle ++ after)) ≡ after
      dropped =
          ap (drop end) (sym (append_assoc before middle after))
          ∙ drop-append end (before ++ middle) after (omega (arith, length-append before middle))

  -- A write over the first of the equal elements behind what is written.
  pub copy_from_slice-replicate {κ} :
      {E : Type κ} (done v : List A) (a : A) (start end n m : ℕ)
      → length done ≡ start
      → length v ≡ m
      → start + m ≡ end
      → m ≤ n
      → copy_from_slice {E = E} (done ++ replicate n a) start end v
        ≡ ok ((done ++ v) ++ replicate (n - m) a)
  copy_from_slice-replicate {E} done v a start end n m hd hv he hm =
      let split = replicate-add m (n - m) n a (omega arith) in
      let size = length-replicate m a in
      rw (split, append_assoc done v (replicate (n - m) a))
        (copy_from_slice_parts {E = E} done (replicate m a) (replicate (n - m) a) v start end hd
          (omega (arith, size)) (omega (arith, size)))
