-- ===== src/Encoding/Reverse.antt =====
-- The loops that reverse bytes and hex digits, against the reversal of a list.
use merged_mining_pool.Common.{
  ℕ, zero, suc, ◌+◌, ◌-◌, ◌*◌, ◌/◌, ◌%◌, ◌≤◌, ◌≡◌, refl, sym, ap, ◌∙◌, true, some, List, [], ◌∷◌,
  ◌++◌, reverse, append-nil, append_assoc, arith, ◌==◌, length, get_elem?, set, take, drop,
  replicate, All, length-append, length-reverse, All-reverse, length-replicate, ==_iff, take-append,
  drop-append, drop-append_le, take-append_le, length-drop, get_elem?-append, set-append,
  replicate-snoc, reverse-cons_append, join, join-append, ok, Bytes,
}
use mathlib.Core.List.{reverse-reverse, reverse-append}
use merged_mining_pool.Hex.{hex_encode}
use merged_mining_pool.Hex.RoundTrip.{hex_encode-append, length-hex_encode}
use merged_mining_pool.Encoding.{
  reverse_loop, reverse_go, slice, reverse_hex_loop, reverse_hex_bytes, reverse_hex4_loop,
  reverse_hex4_bytes, reverse_bytes_loop, reverse_bytes, byte_or_zero,
}

reverse_loop_lem :
    (b acc : Bytes) (index last : ℕ)
    → last ≡ index + length b - 1
    → reverse_loop b index last (replicate (length b) 0 ++ acc) ≡ reverse b ++ acc
unfolding reverse_loop
reverse_loop_lem [] acc index last e = refl
reverse_loop_lem (x ∷ b) acc index last e =
    ap (λ r. reverse_loop b (index + 1) last r) fill
    ∙ reverse_loop_lem b (x ∷ acc) (index + 1) last (omega arith)
    ∙ sym (reverse-cons_append x b acc)
  where
    fill :
        set (replicate (suc (length b)) 0 ++ acc) (last - index) x
        ≡ replicate (length b) 0 ++ x ∷ acc
    fill =
        ap (λ r. set r (last - index) x)
          (ap (λ r. r ++ acc) (replicate-snoc (length b) 0)
            ∙ append_assoc (replicate (length b) 0) (0 ∷ []) acc)
        ∙ set-append (replicate (length b) 0) 0 x acc
            (length-replicate (length b) (0) ∙ omega arith)

-- `reverse` of encoding.go is the reversal of a byte slice.
pub reverse_go_lem : (b : Bytes) → reverse_go b ≡ reverse b
unfolding reverse_go
reverse_go_lem b =
    ap (λ r. reverse_loop b 0 (length b - 1) r) (sym (append-nil (replicate (length b) 0)))
    ∙ reverse_loop_lem b [] 0 (length b - 1) (omega arith)
    ∙ append-nil (reverse b)

reverse_bytes_loop_lem :
    (f back input : Bytes) (i : ℕ)
    → input ≡ reverse f ++ back
    → i ≡ length back
    → reverse_bytes_loop input (length f) i (reverse back ++ replicate (length f) 0)
      ≡ reverse back ++ f
unfolding reverse_bytes_loop
reverse_bytes_loop_lem [] back input i e h = refl
reverse_bytes_loop_lem (x ∷ f) back input i e h =
    ap (λ c. reverse_bytes_loop input (length f) (i + 1) (set old i (byte_or_zero c))) found
    ∙ ap (λ c. reverse_bytes_loop input (length f) (i + 1) c) fill
    ∙ reverse_bytes_loop_lem f (x ∷ back) input (i + 1) whole (omega arith)
    ∙ reverse-cons_append x back f
  where
    whole : input ≡ reverse f ++ x ∷ back
    whole = e ∙ reverse-cons_append x f back

    size : length input ≡ length f + suc (length back)
    size = ap length whole ∙ omega (arith, length-append (reverse f) (x ∷ back), length-reverse f)

    old : Bytes
    old = reverse back ++ replicate (suc (length f)) 0

    fill : set old i x ≡ reverse (x ∷ back) ++ replicate (length f) 0
    fill =
        set-append (reverse back) 0 x (replicate (length f) 0) (length-reverse back ∙ sym h)
        ∙ sym (reverse-cons_append x back (replicate (length f) 0))

    found : get_elem? input (length input - 1 - i) ≡ some x
    found =
        ap (λ s. get_elem? s (length input - 1 - i)) whole
        ∙ get_elem?-append (reverse f) x back (length-reverse f ∙ omega (arith, size))

-- `ReverseBytes` is the reversal of a byte slice: both reversals of the program agree.
pub reverse_bytes_lem : (b : Bytes) → reverse_bytes b ≡ reverse b
unfolding reverse_bytes
reverse_bytes_lem b =
    ap (λ n. reverse_bytes_loop b n 0 (replicate n 0)) (sym (length-reverse b))
    ∙ reverse_bytes_loop_lem (reverse b) [] b 0
        (sym (append-nil (reverse (reverse b)) ∙ reverse-reverse b)) refl

slice-append_left :
    (s t : Bytes) (lo hi : ℕ) → lo ≤ hi → hi ≤ length s → slice (s ++ t) lo hi ≡ slice s lo hi
slice-append_left s t lo hi h k =
    ap (take (hi - lo)) (drop-append_le lo s t (omega arith))
    ∙ take-append_le (hi - lo) (drop lo s) t (omega (arith, length-drop lo s))

slice-middle :
    (s m t : Bytes) {lo hi : ℕ}
    → length s ≡ lo
    → lo + length m ≡ hi
    → slice (s ++ (m ++ t)) lo hi ≡ m
slice-middle s m t e h = ap (take _) (drop-append s (m ++ t) e) ∙ take-append m t (omega arith)

reverse_hex_loop-append :
    (r : ℕ) (h t o : Bytes)
    → 2 * r ≤ length h
    → reverse_hex_loop (h ++ t) r o ≡ reverse_hex_loop h r o
unfolding reverse_hex_loop
reverse_hex_loop-append zero h t o k = refl
reverse_hex_loop-append (suc r) h t o k =
    ap (λ c. reverse_hex_loop (h ++ t) r (o ++ c))
      (slice-append_left h t (2 * suc r - 2) (2 * suc r) (omega arith) (omega arith))
    ∙ reverse_hex_loop-append r h t _ (omega arith)

reverse_hex_loop-encode :
    (bs o : Bytes) → reverse_hex_loop (hex_encode (reverse bs)) (length bs) o ≡ o ++ hex_encode bs
unfolding reverse_hex_loop
reverse_hex_loop-encode [] o = unfold hex_encode in sym (append-nil o)
reverse_hex_loop-encode (b ∷ bs) o =
    ap (λ h. reverse_hex_loop h (suc (length bs)) o) split
    ∙ ap (λ c. reverse_hex_loop (front ++ digits) (length bs) (o ++ c)) (cut)
    ∙ reverse_hex_loop-append (length bs) front digits (o ++ digits) (omega (arith, size))
    ∙ reverse_hex_loop-encode bs (o ++ digits)
    ∙ append_assoc o digits (hex_encode bs)
    ∙ ap (λ r. o ++ r) (sym (hex_encode-append (b ∷ []) bs))
  where
    front : Bytes
    front = hex_encode (reverse bs)

    digits : Bytes
    digits = hex_encode (b ∷ [])

    size : length front ≡ 2 * length bs
    size = length-hex_encode (reverse bs) ∙ ap (λ n. 2 * n) (length-reverse bs)

    split : hex_encode (reverse (b ∷ bs)) ≡ front ++ digits
    split = ap hex_encode (reverse-append (b ∷ []) bs) ∙ hex_encode-append (reverse bs) (b ∷ [])

    cut : slice (front ++ digits) (2 * suc (length bs) - 2) (2 * suc (length bs)) ≡ digits
    cut =
        ap (λ d. slice (front ++ d) (2 * suc (length bs) - 2) (2 * suc (length bs)))
          (sym (append-nil digits))
        ∙ slice-middle front digits [] (omega (arith, size))
            (omega (arith, length-hex_encode (b ∷ [])))

-- On the hex digits of bytes `reverseHexBytes` succeeds, with the digits of the reversed bytes.
pub reverse_hex_bytes-encode :
    (bs : Bytes) → reverse_hex_bytes (hex_encode bs) ≡ ok (hex_encode (reverse bs))
unfolding reverse_hex_bytes
reverse_hex_bytes-encode bs = rw (even, half) (ap ok digits)
  where
    even : (length (hex_encode bs) % 2 == 0) ≡ true
    even = (==_iff _ _).1 (omega (arith, length-hex_encode bs))

    half : length (hex_encode bs) / 2 ≡ length bs
    half = omega (arith, length-hex_encode bs)

    digits : reverse_hex_loop (hex_encode bs) (length bs) [] ≡ hex_encode (reverse bs)
    digits =
        ap (λ c. reverse_hex_loop (hex_encode c) (length bs) []) (sym (reverse-reverse bs))
        ∙ ap (λ n. reverse_hex_loop (hex_encode (reverse (reverse bs))) n [])
            (sym (length-reverse bs))
        ∙ reverse_hex_loop-encode (reverse bs) []

reverse_hex4_loop-join :
    (ws : List Bytes) (tail o hex : Bytes) (i : ℕ)
    → All (λ w. length w ≡ 8) ws
    → hex ≡ join (reverse ws) ++ tail
    → length tail ≡ 8 * i
    → reverse_hex4_loop hex (length ws) i o ≡ o ++ join ws
unfolding reverse_hex4_loop
reverse_hex4_loop-join [] tail o hex i h e t = sym (append-nil o)
reverse_hex4_loop-join (w ∷ ws) tail o hex i (hw, hws) e t =
    ap (λ c. reverse_hex4_loop hex (length ws) (i + 1) (o ++ c)) cut
    ∙ reverse_hex4_loop-join ws (w ++ tail) (o ++ w) hex (i + 1) hws whole
        (omega (arith, length-append {0} w tail))
    ∙ append_assoc o w (join ws)
  where
    whole : hex ≡ join (reverse ws) ++ (w ++ tail)
    whole =
        e
        ∙ ap (λ c. c ++ tail)
            (ap join (reverse-append (w ∷ []) ws)
              ∙ join-append (reverse ws) (w ∷ [])
              ∙ ap (λ c. join (reverse ws) ++ c) (append-nil w))
        ∙ append_assoc (join (reverse ws)) w tail

    size : length hex ≡ length (join (reverse ws)) + 8 * (i + 1)
    size =
        ap length whole
        ∙ omega (arith, length-append {0} (join (reverse ws)) (w ++ tail), length-append {0} w tail)

    cut : slice hex (length hex - 8 * (i + 1)) (length hex - 8 * i) ≡ w
    cut =
        ap (λ s. slice s (length hex - 8 * (i + 1)) (length hex - 8 * i)) whole
        ∙ slice-middle (join (reverse ws)) w tail (omega (arith, size)) (omega (arith, size))

length-join : (ws : List Bytes) → All (λ w. length w ≡ 8) ws → length (join ws) ≡ 8 * length ws
length-join [] h = omega arith
length-join (w ∷ ws) (h, hs) = omega (arith, length-append {0} w (join ws), length-join ws hs)

-- On words of eight characters `reverseHex4Bytes` succeeds, and reverses the order of the words.
pub reverse_hex4_bytes-join :
    (ws : List Bytes)
    → All (λ w. length w ≡ 8) ws
    → reverse_hex4_bytes (join ws) ≡ ok (join (reverse ws))
unfolding reverse_hex4_bytes
reverse_hex4_bytes-join ws h = rw (even, count) (ap ok words)
  where
    even : (length (join ws) % 8 == 0) ≡ true
    even = (==_iff _ _).1 (omega (arith, length-join ws h))

    count : length (join ws) / 8 ≡ length ws
    count = omega (arith, length-join ws h)

    words : reverse_hex4_loop (join ws) (length ws) 0 [] ≡ join (reverse ws)
    words =
        ap (λ n. reverse_hex4_loop (join ws) n 0 []) (sym (length-reverse ws))
        ∙ reverse_hex4_loop-join (reverse ws) [] [] (join ws) 0 (All-reverse _ ws h)
            (sym (append-nil _ ∙ ap join (reverse-reverse ws))) (omega arith)
