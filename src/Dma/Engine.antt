-- ===== src/Dma/Engine.antt =====
-- What dma/dma_m2m.c, dma/dma_mmap.c and dma/dma_sg.c ask of the kernel.
use raspberrypimodules.Prelude.{
  ℕ, zero, suc, ◌-◌, ◌≤◌, ◌≡◌, refl, ap, Bool, true, false, List, [], ◌∷◌, ◌++◌, append-nil, arith,
  length, take, replicate, ◌==◌,
}
use raspberrypimodules.Prelude.Errno.{Ret}

-- `SDMA_BUFFER_SIZE`
abbrev pub sdma_buffer_size : ℕ
sdma_buffer_size = 4096

-- The DMA engine for one transaction: whether it gives a descriptor, whether `dma_submit_error` tells of an
-- error, what the target holds behind the copy of a source over it, and whether the callback is called.
pub record Engine : Type 0 where
  pub prepared : Bool
  pub submit_error : Bool
  pub moved : List ℕ → List ℕ → List ℕ
  pub finishes : Bool

-- A transaction that the engine carries out; it copies the source.
pub record Works (engine : Engine) : Type 0 where
  pub prepared : engine.prepared ≡ true
  pub submitted : engine.submit_error ≡ false
  pub copies : (src dst : List ℕ) → length src ≡ length dst → engine.moved src dst ≡ src
  pub finishes : engine.finishes ≡ true

-- How a call ends: it returns, it waits for a completion for ever, or it follows a pointer to nothing or
-- leaves a buffer.
pub data Outcome {ℓ} (S : Type ℓ) : Type ℓ where
  returned : Ret → S → Outcome S
  blocked : S → Outcome S
  fault : Outcome S

-- What `copy_from_user` leaves of a user's bytes when it gets `got` of them over: the rest are zeros.
abbrev pub user_bytes : (got : ℕ) → List ℕ → List ℕ
user_bytes got buf = take got buf ++ replicate (length buf - got) 0

pub ==_self : (n : ℕ) → (n == n) ≡ true
==_self n = ground arith

take-long {ℓ} : {A : Type ℓ} (n : ℕ) (xs : List A) → length xs ≤ n → take n xs ≡ xs
take-long zero [] h = refl
take-long zero (x ∷ xs) h = absurd (omega arith)
take-long (suc n) [] h = refl
take-long (suc n) (x ∷ xs) h = ap (λ l. x ∷ l) (take-long n xs (omega arith))

-- Bytes that can all be read are copied.
pub user_bytes-all : (got : ℕ) (buf : List ℕ) → length buf ≤ got → user_bytes got buf ≡ buf
user_bytes-all got buf h =
    let none_left : length buf - got ≡ 0 = omega arith in
    rw none_left (rw (take-long got buf h) (append-nil buf))
