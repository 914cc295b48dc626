-- ===== src/Edge/Samples.antt =====
-- 16-bit samples in memory, as vad-edge/src/xdp_vad.c and vad-edge/wasm/vad_module.wat load them: two
-- bytes, the low one first. A memory is the function that reads a byte; `none` is a read outside of it.
use asr_serve.Base.{
  ℕ, zero, suc, ◌+◌, ◌*◌, ◌/◌, ◌<◌, ◌≡◌, refl, ap, ◌∙◌, List, [], ◌∷◌, Option, some, length,
  get_elem?, drop, take, arith,
}
use asr_serve.Base.Int.{ℤ}
use asr_serve.Base.Loops.{◌>>=◌}
use asr_serve.Edge.Word.{signed16}

abbrev pub Memory : Type 0
Memory = ℕ → Option ℕ

-- the sample at an address
abbrev pub sample_at : Memory → ℕ → Option ℤ
sample_at read a = do low ← read a; high ← read (suc a); some (signed16 (high * 256 + low))

-- the samples of a row of bytes
abbrev pub decode : List ℕ → List ℤ
decode [] = []
decode (low ∷ []) = []
decode (low ∷ high ∷ rest) = signed16 (high * 256 + low) ∷ decode rest

-- Memory holds the bytes from an address on.
abbrev pub Holds : Memory → ℕ → List ℕ → Type 0
Holds read a [] = Unit
Holds read a (b ∷ bytes) = (read a ≡ some b) × Holds read (suc a) bytes

Holds-cons :
    (xs : List ℕ) (x a : ℕ) (bytes : List ℕ)
    → Holds (get_elem? xs) a bytes
    → Holds (get_elem? (x ∷ xs)) (suc a) bytes
Holds-cons xs x a [] h = tt
Holds-cons xs x a (b ∷ bytes) h = (h.0, Holds-cons xs x (suc a) bytes h.1)

-- a list of bytes, as the memory that has them from any address on
pub Holds-get_elem? : (xs : List ℕ) (a : ℕ) → Holds (get_elem? xs) a (drop a xs)
Holds-get_elem? [] zero = tt
Holds-get_elem? [] (suc a) = tt
Holds-get_elem? (x ∷ xs) zero = (refl, Holds-cons xs x 0 xs (Holds-get_elem? xs 0))
Holds-get_elem? (x ∷ xs) (suc a) = Holds-cons xs x a (drop a xs) (Holds-get_elem? xs a)

pub Holds-take :
    (read : Memory) (a n : ℕ) (bytes : List ℕ) → Holds read a bytes → Holds read a (take n bytes)
Holds-take read a zero bytes h = tt
Holds-take read a (suc n) [] h = tt
Holds-take read a (suc n) (b ∷ bytes) h = (h.0, Holds-take read (suc a) n bytes h.1)

pub length-decode : (bytes : List ℕ) → length (decode bytes) ≡ length bytes / 2
length-decode [] = refl
length-decode (b ∷ []) = refl
length-decode (low ∷ high ∷ rest) = omega (arith, length-decode rest)

pub sample_at-Holds :
    (read : Memory) (a low high : ℕ) (rest : List ℕ)
    → Holds read a (low ∷ high ∷ rest)
    → sample_at read a ≡ some (signed16 (high * 256 + low))
sample_at-Holds read a low high rest h = rw (h.0, h.1.0) refl

-- Memory holds the bytes that it reads one by one.
pub Holds-reads :
    (read : Memory) (a : ℕ) (bytes : List ℕ)
    → ((k : ℕ) → k < length bytes → read (a + k) ≡ get_elem? bytes k)
    → Holds read a bytes
Holds-reads read a [] h = tt
Holds-reads read a (b ∷ bytes) h = (
  ap read (omega arith) ∙ h 0 (omega arith),
  Holds-reads read (suc a) bytes (λ k lt. ap read (omega arith) ∙ h (suc k) (omega arith)),
)
