-- ===== src/Wire/Endian.antt =====
-- Little-endian words, written and read.
use Prim.Native.Nat.add
use ipmigod.Base.{ℕ, suc, ◌^◌, ◌<◌, ◌≡◌, ◌∙◌, [], ◌∷◌, ◌++◌, length, arith}
use ipmigod.Wire.{Bytes, put_uint32, uint32_at}

uint32_at-cons : (b : ℕ) (bs : Bytes) (i : ℕ) → uint32_at (b ∷ bs) (suc i) ≡ uint32_at bs i
unfolding uint32_at
uint32_at-cons b bs i = simp add.suc

-- What `PutUint32` wrote behind any bytes, `Uint32` reads back at their end.
uint32_at-put_uint32 :
    (xs ys : Bytes) (v : ℕ) → v < 2 ^ 32 → uint32_at (xs ++ (put_uint32 v ++ ys)) (length xs) ≡ v
uint32_at-put_uint32 [] ys v h = unfold uint32_at in omega arith
uint32_at-put_uint32 (x ∷ xs) ys v h =
    uint32_at-cons x (xs ++ (put_uint32 v ++ ys)) (length xs) ∙ uint32_at-put_uint32 xs ys v h
