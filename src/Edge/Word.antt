-- ===== src/Edge/Word.antt =====
-- The casts of C and WebAssembly to fixed widths, and the sign of an exclusive or.
use Prim.Native.Nat.{bit_xor, differ, digits, bit_xor-bitwise}
use asr_serve.Base.{
  ℕ, zero, suc, ◌+◌, ◌-◌, ◌*◌, ◌/◌, ◌%◌, ◌≤◌, ◌<◌, ◌≡◌, refl, sym, ap, ◌∙◌, Bool, true, false, not,
  ltb, leb, if◌then◌else◌, arith,
}
use asr_serve.Base.Int.{ℤ, pos, negsuc, pos_part, neg_part, ltb_ℤ}

abbrev pub u32 : ℕ → ℕ
u32 n = n % 4_294_967_296

abbrev pub u64 : ℕ → ℕ
u64 n = n % 18_446_744_073_709_551_616

-- the number that 16 or 32 bits stand for
abbrev pub signed16 : ℕ → ℤ
signed16 w = if ltb w 32_768 then pos w else negsuc (65_535 - w)

abbrev pub signed32 : ℕ → ℤ
signed32 w = if ltb w 2_147_483_648 then pos w else negsuc (4_294_967_295 - w)

-- the 32 bits of a number
abbrev pub word32 : ℤ → ℕ
word32 (pos n) = u32 n
word32 (negsuc n) = 4_294_967_295 - u32 n

-- `|x|`
abbrev pub magnitude : ℤ → ℕ
magnitude x = pos_part x + neg_part x

abbrev pub is_negative : ℤ → Bool
is_negative x = ltb 0 (neg_part x)

pub magnitude-signed16 : (w : ℕ) → magnitude (signed16 w) ≤ 32_768
magnitude-signed16 w = ground arith

-- `a ^ b`, computed with a count of digits that may be too large
abbrev xor_in : ℕ → ℕ → ℕ → ℕ
xor_in count a b = digits (λ y. y) differ count a b

xor_in-bit_xor : (bound count a b : ℕ) → count ≤ bound → a ≤ count → xor_in count a b ≡ bit_xor a b
xor_in-bit_xor bound zero zero b fits enough = sym (bit_xor-bitwise zero b)
xor_in-bit_xor bound (suc count) zero b fits enough = sym (bit_xor-bitwise zero b)
xor_in-bit_xor bound zero (suc a) b fits enough = absurd (omega arith)
xor_in-bit_xor zero (suc count) (suc a) b fits enough = absurd (omega arith)
xor_in-bit_xor (suc bound) (suc count) (suc a) b fits enough =
    let given = xor_in-bit_xor bound count (suc a / 2) (b / 2) (omega arith) (omega arith) in
    let least = xor_in-bit_xor bound a (suc a / 2) (b / 2) (omega arith) (omega arith) in
    ap (λ (upper : ℕ). upper * 2 + differ (suc a % 2) (b % 2)) (given ∙ sym least)
    ∙ sym (bit_xor-bitwise (suc a) b)

a_digit : (x y : ℕ) → x ≤ 1 → y ≤ 1 → differ x y ≤ 1
a_digit zero y p q = q
a_digit (suc zero) zero p q = omega arith
a_digit (suc zero) (suc zero) p q = omega arith
a_digit (suc zero) (suc (suc y)) p q = absurd (omega arith)
a_digit (suc (suc x)) y p q = absurd (omega arith)

bit_xor_half : (a b : ℕ) → bit_xor a b / 2 ≡ bit_xor (a / 2) (b / 2)
bit_xor_half zero b =
    ap (λ (x : ℕ). x / 2) (bit_xor-bitwise zero b) ∙ sym (bit_xor-bitwise zero (b / 2))
bit_xor_half (suc a) b =
    let upper = xor_in-bit_xor a a (suc a / 2) (b / 2) (omega arith) (omega arith) in
    let low = a_digit (suc a % 2) (b % 2) (omega arith) (omega arith) in
    ap (λ (x : ℕ). x / 2) (bit_xor-bitwise (suc a) b) ∙ omega (arith, upper, low)

abbrev halved : ℕ → ℕ → ℕ
halved zero a = a
halved (suc k) a = halved k (a / 2)

bit_xor-halved : (k a b : ℕ) → halved k (bit_xor a b) ≡ bit_xor (halved k a) (halved k b)
bit_xor-halved zero a b = refl
bit_xor-halved (suc k) a b = rw (bit_xor_half a b) (bit_xor-halved k (a / 2) (b / 2))

halved_31 : (a : ℕ) → halved 31 a ≡ a / 2_147_483_648
halved_31 a = omega arith

top_bit : (a b : ℕ) → bit_xor a b / 2_147_483_648 ≡ bit_xor (a / 2_147_483_648) (b / 2_147_483_648)
top_bit a b = sym (halved_31 (bit_xor a b)) ∙ bit_xor-halved 31 a b ∙ rw (halved_31 a, halved_31 b)

-- `(a ^ b) < 0`
pub signs_differ : ℤ → ℤ → Bool
signs_differ a b = ltb_ℤ (signed32 (bit_xor (word32 a) (word32 b))) (pos 0)

abbrev pub unequal : Bool → Bool → Bool
unequal true b = not b
unequal false b = b

sign_of_word :
    (x : ℤ) → magnitude x ≤ 32_768 → word32 x / 2_147_483_648 ≡ (if is_negative x then 1 else 0)
sign_of_word (pos n) h = ground arith
sign_of_word (negsuc n) h = ground arith

negative_iff_top :
    (w : ℕ) → w < 4_294_967_296 → ltb_ℤ (signed32 w) (pos 0) ≡ leb 1 (w / 2_147_483_648)
negative_iff_top w h = ground arith

-- The sign bit of `a ^ b` is set when one of the two numbers is negative and the other is not.
pub signs_differ_lem :
    (a b : ℤ)
    → magnitude a ≤ 32_768
    → magnitude b ≤ 32_768
    → signs_differ a b ≡ unequal (is_negative a) (is_negative b)
unfolding signs_differ
signs_differ_lem a b ha hb =
    let bits : bit_xor (word32 a) (word32 b) / 2_147_483_648
        ≡ bit_xor (if is_negative a then 1 else 0) (if is_negative b then 1 else 0) =
      top_bit (word32 a) (word32 b) ∙ rw (sign_of_word a ha, sign_of_word b hb) in
    by_signs (is_negative a) (is_negative b) _ bits
  where
    by_signs :
        (x y : Bool) (w : ℕ)
        → w / 2_147_483_648 ≡ bit_xor (if x then 1 else 0) (if y then 1 else 0)
        → ltb_ℤ (signed32 w) (pos 0) ≡ unequal x y
    by_signs true true w e = let h : w / 2_147_483_648 ≡ 0 = e in ground arith
    by_signs true false w e = let h : w / 2_147_483_648 ≡ 1 = e in ground arith
    by_signs false true w e = let h : w / 2_147_483_648 ≡ 1 = e in ground arith
    by_signs false false w e = let h : w / 2_147_483_648 ≡ 0 = e in ground arith
