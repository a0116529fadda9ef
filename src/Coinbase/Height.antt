-- ===== src/Coinbase/Height.antt =====
-- `encodeNumber` writes the height as a script pushes a number.
use merged_mining_pool.Common.{
  ℕ, zero, suc, ◌+◌, ◌*◌, ◌/◌, ◌%◌, ◌^◌, ◌≤◌, ◌<◌, ◌≡◌, refl, sym, ap, ◌∙◌, ◌≢◌, ◌↔◌, ◌⊎◌, inl, inr,
  true, false, ◌&&◌, [], ◌∷◌, ◌++◌, append_assoc, arith, ltb, leb, if◌then◌else◌, Bool-cases,
  length, set, take, replicate, All, length-append, length-set, take-append, set-append, ltb→lt,
  lt→ltb, leb→le, ok, panic, ◌>>=◌, Bytes, IsByte,
}
use mathlib.Core.Path.{ap₂}
use native.Mathlib.Nat.{pow-suc, mod-eq_of_lt}
use merged_mining_pool.Encoding.VarUint.{le_value}
use merged_mining_pool.Coinbase.{store, encode_number_loop, encode_number_finish, encode_number}

-- The bytes of a nonnegative script number: the last one keeps the sign bit free.
script_digits : ℕ → ℕ → Bytes
script_digits zero n = n ∷ []
script_digits (suc k) n =
    let rest = script_digits k (n / 256) in if ltb 0x7f n then (n % 256) ∷ rest else n ∷ []

abbrev pub last_byte : Bytes → ℕ
last_byte [] = 0
last_byte (b ∷ []) = b
last_byte (b ∷ c ∷ s) = last_byte (c ∷ s)

-- The digits of a number below 128 * 256 ^ k.
record IsDigits (k n : ℕ) (digits : Bytes) : Type 0 where
  size : (1 ≤ length digits) × (length digits ≤ suc k)
  bytes : All IsByte digits
  value : le_value digits ≡ n
  sign : last_byte digits < 128

last_byte-cons : (b : ℕ) (s : Bytes) → 1 ≤ length s → last_byte (b ∷ s) ≡ last_byte s
last_byte-cons b [] h = absurd (omega arith)
last_byte-cons b (c ∷ s) h = refl

script_digits-IsDigits : (k n : ℕ) → n < 128 * 256 ^ k → IsDigits k n (script_digits k n)
unfolding script_digits
script_digits-IsDigits zero n h = record {
  size = omega arith;
  bytes = omega arith;
  value = omega arith;
  sign = omega arith;
}
script_digits-IsDigits (suc k) n h = elim (Bool-cases (ltb 0x7f n)) [
  | inr e ↦ rw e (record {
    size = omega arith;
    bytes = ground arith;
    value = omega arith;
    sign = ground arith;
  })
  | inl e ↦
      let d = script_digits-IsDigits k (n / 256) (omega (arith, pow-suc 256 k)) in
      rw e (record {
        size = omega (arith, d.size);
        bytes = (omega arith, d.bytes);
        value = omega (arith, d.value);
        sign = rw (last_byte-cons (n % 256) (script_digits k (n / 256)) (d.size).0) d.sign;
      })
]

store-append :
    (s : Bytes) (y v : ℕ) (t : Bytes) {i : ℕ}
    → length s ≡ i
    → store (s ++ y ∷ t) i v ≡ ok (s ++ v ∷ t)
store-append s y v t {i} e =
    rw (lt→ltb i (length (s ++ y ∷ t)) (omega (arith, length-append {0} s (y ∷ t))))
      (ap ok (set-append s y v t e))

finish_lem :
    (n x l : ℕ) (p t : Bytes)
    → n < 128
    → l ≡ suc (length p)
    → l < 256
    → encode_number_finish (n, l, x ∷ p ++ 0 ∷ t) ≡ ok (l ∷ p ++ n ∷ [])
unfolding encode_number_finish
finish_lem n x l p t h e b =
    ap (λ r. r >>= λ headed. store headed l (n % 256) >>= λ full. ok (take (l + 1) full))
      (store-append [] x (l % 256) (p ++ 0 ∷ t) refl)
    ∙ ap (λ r. r >>= λ full. ok (take (l + 1) full))
        (store-append ((l % 256) ∷ p) 0 (n % 256) t (sym e))
    ∙ ap ok (ap (take (l + 1)) (sym (append_assoc ((l % 256) ∷ p) ((n % 256) ∷ []) t)) ∙ cut)
    ∙ (rw (mod-eq_of_lt b, mod-eq_of_lt small))
  where
    small : n < 256
    small = omega arith

    cut : take (l + 1) (((l % 256) ∷ p ++ (n % 256) ∷ []) ++ t) ≡ (l % 256) ∷ p ++ (n % 256) ∷ []
    cut =
        take-append ((l % 256) ∷ p ++ (n % 256) ∷ []) t
          (omega (arith, length-append {0} p ((n % 256) ∷ [])))

loop_done :
    (rounds n l : ℕ) (buff : Bytes)
    → n < 128
    → encode_number_loop (suc rounds) n l buff ≡ ok (n, l, buff)
unfolding encode_number_loop
loop_done rounds n l buff h = ground arith

loop_more :
    (rounds n l : ℕ) (buff : Bytes)
    → 127 < n
    → encode_number_loop (suc rounds) n l buff
      ≡ (store buff l (n % 256) >>= encode_number_loop rounds (n / 256) (l + 1))
unfolding encode_number_loop
loop_more rounds n l buff h = rw (lt→ltb 127 n h)

one_more : (l : ℕ) (p : Bytes) → l ≡ suc (length p) → l ≡ length p + 1
one_more l p e = omega arith

-- The loop from a buffer whose first bytes are `x` and `p`, with the free slots behind them.
loop-finish :
    (k rounds n x l : ℕ) (p : Bytes)
    → n < 128 * 256 ^ k
    → k < rounds
    → l ≡ suc (length p)
    → l + k < 256
    → (encode_number_loop rounds n l (x ∷ p ++ replicate (suc k) 0) >>= encode_number_finish)
      ≡ ok ((length p + length (script_digits k n)) ∷ p ++ script_digits k n)
unfolding script_digits
loop-finish k zero n x l p h r e b = absurd (omega arith)
loop-finish zero (suc rounds) n x l p h r e b =
    ap (λ m. m >>= encode_number_finish) (loop_done rounds n l _ (omega arith))
    ∙ finish_lem n x l p [] (omega arith) e (omega arith)
    ∙ ap (λ (m : ℕ). ok (m ∷ p ++ n ∷ [])) (one_more l p e)
loop-finish (suc k) (suc rounds) n x l p h r e b = elim (Bool-cases (ltb 0x7f n)) [
  | inr few ↦
      ap (λ m. m >>= encode_number_finish) (loop_done rounds n l _ (ground arith))
      ∙ finish_lem n x l p _ (ground arith) e (omega arith)
      ∙ ap (λ (m : ℕ). ok (m ∷ p ++ n ∷ [])) (one_more l p e)
      ∙ rw few
  | inl more ↦
      ap (λ m. m >>= encode_number_finish)
        (loop_more rounds n l _ (ltb→lt 127 n more)
          ∙ ap (λ r. r >>= encode_number_loop rounds (n / 256) (l + 1))
              (store-append (x ∷ p) 0 (n % 256) (replicate (suc k) 0) (sym e)
                ∙ ap (λ r. ok (x ∷ r))
                    (sym (append_assoc p ((n % 256) ∷ []) (replicate (suc k) 0)))))
      ∙ loop-finish k rounds (n / 256) x (l + 1) (p ++ (n % 256) ∷ [])
          (omega (arith, pow-suc 256 k)) (omega arith)
          (omega (arith, length-append {0} p ((n % 256) ∷ []))) (omega arith)
      ∙ rw more (
          ap₂ (λ (m : ℕ) (q : Bytes). ok (m ∷ q))
            (omega (arith, length-append {0} p ((n % 256) ∷ [])))
            (append_assoc p ((n % 256) ∷ []) (script_digits k (n / 256))))
]

-- For a height of 0, or above 16 and below 2 ^ 63, `encodeNumber` writes the count of the bytes that follow and one
-- to eight bytes, which are the number in little-endian order and leave the sign bit free.
pub encode_number_round_trip :
    (n : ℕ)
    → (n ≡ 0) ⊎ (16 < n)
    → n < 2 ^ 63
    → (digits : Bytes) × (encode_number n ≡ ok (length digits ∷ digits))
      × ((1 ≤ length digits) × (length digits ≤ 8))
      × All IsByte digits
      × (le_value digits ≡ n)
      × (last_byte digits < 128)
unfolding encode_number
encode_number_round_trip n big h =
    let d = script_digits-IsDigits 7 n (omega arith) in
    (
      script_digits 7 n,
      rw (unpushed) (
          loop-finish 7 10 n 0 1 [] (omega arith) (omega arith) (omega arith) (omega arith)
          ∙ ap (λ (m : ℕ). ok (m ∷ script_digits 7 n)) (omega arith)),
      d.size,
      d.bytes,
      d.value,
      d.sign,
    )
  where
    unpushed : (leb 1 n && leb n 16) ≡ false
    unpushed = ground arith

abbrev IsLarge : ℕ → ℕ → Type 0
IsLarge zero n = Unit
IsLarge (suc k) n = 128 * 256 ^ k ≤ n

one-le-pow : (k : ℕ) → 1 ≤ 256 ^ k
one-le-pow zero = omega arith
one-le-pow (suc k) = omega (arith, one-le-pow k, pow-suc 256 k)

IsLarge-div : (k n : ℕ) → IsLarge (suc k) n → (127 < n) × IsLarge k (n / 256)
IsLarge-div zero n h = (omega arith, tt)
IsLarge-div (suc k) n h = (omega (arith, one-le-pow k, pow-suc 256 k), omega (arith, pow-suc 256 k))

store_out : (buff : Bytes) (i v : ℕ) → length buff ≤ i → store buff i v ≡ panic
store_out buff i v h = ground arith

store_in : (buff : Bytes) (i v : ℕ) → i < length buff → store buff i v ≡ ok (set buff i v)
store_in buff i v h = ground arith

finish_out : (n l : ℕ) (buff : Bytes) → length buff ≤ l → encode_number_finish (n, l, buff) ≡ panic
unfolding encode_number_finish
finish_out n l buff h = elim (Bool-cases (ltb 0 (length buff))) [
  | inr e ↦ rw e
  | inl e ↦ rw (
    e,
    store_out (set buff 0 (l % 256)) l (n % 256) (omega (arith, length-set {0} buff 0 (l % 256))),
  )
]

-- A number with a ninth byte does not fit the buffer.
overflow :
    (k rounds n l : ℕ) (buff : Bytes)
    → IsLarge k n
    → length buff ≡ 9
    → l + k ≡ 9
    → k < rounds
    → (encode_number_loop rounds n l buff >>= encode_number_finish) ≡ panic
overflow k zero n l buff large size e r = absurd (omega arith)
overflow zero (suc rounds) n l buff large size e r = elim (Bool-cases (ltb 127 n)) [
  | inl more ↦
      rw (loop_more rounds n l buff (ltb→lt 127 n more), store_out buff l (n % 256) (omega arith))
  | inr few ↦ rw (loop_done rounds n l buff (ground arith)) (finish_out n l buff (omega arith))
]
overflow (suc k) (suc rounds) n l buff large size e r =
    rw
      (loop_more rounds n l buff (IsLarge-div k n large).0, store_in buff l (n % 256) (omega arith))
      (overflow k rounds (n / 256) (l + 1) (set buff l (n % 256)) (IsLarge-div k n large).1
        (length-set buff l (n % 256) ∙ size) (omega arith) (omega arith))

unpushed : (n : ℕ) → (n ≡ 0) ⊎ (16 < n) → (leb 1 n && leb n 16) ≡ false
unpushed n big = ground arith

panics : (n : ℕ) → 2 ^ 63 ≤ n → encode_number n ≡ panic
unfolding encode_number
panics n h =
    rw (unpushed n (inr (omega arith)))
      (overflow 8 10 n 1 (replicate 9 0) (omega arith) refl refl (omega arith))

total : (n : ℕ) → n < 2 ^ 63 → encode_number n ≢ panic
total n h e = elim (Bool-cases (leb 1 n && leb n 16)) [
  | inl short ↦ pushed short e
  | inr long ↦ cc (e, (encode_number_round_trip n (ground arith) h).1)
]
  where
    pushed : (leb 1 n && leb n 16) ≡ true → encode_number n ≢ panic
    pushed short p = unfold encode_number in ground arith

-- `encodeNumber` panics exactly on the numbers from 2 ^ 63 on.
pub encode_number-eq-panic_iff : (n : ℕ) → (encode_number n ≡ panic) ↔ (2 ^ 63 ≤ n)
encode_number-eq-panic_iff n = (
  λ e. elim (Bool-cases (leb (2 ^ 63) n)) [
    | inl h ↦ leb→le _ _ h
    | inr h ↦ absurd (total n (ground arith) e)
  ],
  panics n,
)

-- What encodeNumber returns without a panic has at most nine bytes, the room that it has.
pub encode_number_size : (n : ℕ) {bs : Bytes} → encode_number n ≡ ok bs → length bs ≤ 9
encode_number_size n {bs} e = elim (Bool-cases (leb 1 n && leb n 16)) [
  | inl short ↦ pushed short
  | inr long ↦ elim (Bool-cases (leb (2 ^ 63) n)) [
    | inl h ↦ cc (panics n (leb→le _ _ h))
    | inr h ↦ counted (encode_number_round_trip n (ground arith) (ground arith))
  ]
]
  where
    pushed : (leb 1 n && leb n 16) ≡ true → length bs ≤ 9
    pushed short = unfold encode_number in ground arith

    counted :
        (digits : Bytes) × (encode_number n ≡ ok (length digits ∷ digits))
          × ((1 ≤ length digits) × (length digits ≤ 8))
          × All IsByte digits
          × (le_value digits ≡ n)
          × (last_byte digits < 128)
        → length bs ≤ 9
    counted (digits, d, size, _, _, _) = ground (arith)
