-- ===== src/Framed/Buffer.antt =====
-- The two buffers of framed.rs that reads fill from the front.
use fungi_transport_ci_test.Prelude.{
  ℕ, zero, suc, ◌+◌, ◌-◌, ◌≤◌, ◌≡◌, refl, [], ◌∷◌, ◌++◌, length, take, drop, replicate, All, arith,
  length-append, length-take, length-drop, length-replicate, All-append, take_prefix, append_assoc,
}
use fungi_transport_ci_test.Text.{Bytes}
use fungi_transport_ci_test.Io.{IsByte}
use fungi_transport_ci_test.Framed.{write_at, resize}

pub take_all : (n : ℕ) (xs : Bytes) → n ≡ length xs → take n xs ≡ xs
take_all zero [] e = refl
take_all zero (x ∷ xs) e = absurd (omega arith)
take_all (suc n) [] e = refl
take_all (suc n) (x ∷ xs) e = rw (take_all n xs (omega arith))

All-take : (n : ℕ) (xs : Bytes) → All IsByte xs → All IsByte (take n xs)
All-take zero xs a = tt
All-take (suc n) [] a = tt
All-take (suc n) (x ∷ xs) a = (a.0, All-take n xs a.1)

All-drop : (n : ℕ) (xs : Bytes) → All IsByte xs → All IsByte (drop n xs)
All-drop zero xs a = a
All-drop (suc n) [] a = tt
All-drop (suc n) (x ∷ xs) a = All-drop n xs a.1

module _ (v : Bytes) (at : ℕ) (bs : Bytes) where
  pub length-write_at : at + length bs ≤ length v → length (write_at v at bs) ≡ length v
  unfolding write_at
  length-write_at h = omega (
    arith,
    length-append (take at v) (bs ++ drop (at + length bs) v),
    length-append bs (drop (at + length bs) v),
    length-take at v,
    length-drop (at + length bs) v,
  )

  -- A read grows the filled part by its bytes.
  pub take-write_at :
      at + length bs ≤ length v → take (at + length bs) (write_at v at bs) ≡ take at v ++ bs
  unfolding write_at
  take-write_at h = rw (← append_assoc) (
      take_prefix (at + length bs) (take at v ++ bs) (drop (at + length bs) v)
        (omega (arith, length-append (take at v) bs, length-take at v)))

  pub write_at-IsByte : All IsByte v → All IsByte bs → All IsByte (write_at v at bs)
  unfolding write_at
  write_at-IsByte a b =
      All-append IsByte (take at v) (bs ++ drop (at + length bs) v) (All-take at v a)
        (All-append IsByte bs (drop (at + length bs) v) b (All-drop (at + length bs) v a))

pub length-resize : (v : Bytes) (n : ℕ) → length (resize v n) ≡ n
unfolding resize
length-resize v n = omega (
  arith,
  length-append (take n v) (replicate (n - length v) 0),
  length-take n v,
  length-replicate (n - length v) (zero),
)
