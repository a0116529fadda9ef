-- ===== src/Header/Fields.antt =====
-- The fields of a header, as a node reads them.
use merged_mining_pool.Common.{
  ℕ, ◌+◌, ◌%◌, ◌^◌, ◌≡◌, ap, ◌∙◌, ◌++◌, reverse, arith, length, take, drop, All, length-append,
  length-reverse, take-append, drop-append, ok, Bytes, IsByte,
}
use mathlib.Core.List.{reverse-reverse}
use merged_mining_pool.Hex.{hex_encode}
use merged_mining_pool.Hex.RoundTrip.{hex_decode-encode}
use merged_mining_pool.Encoding.{le_bytes, four_little_endian_bytes, reverse_go}
use merged_mining_pool.Encoding.Reverse.{reverse_go_lem}
use merged_mining_pool.Encoding.VarUint.{le_value, length-le_bytes, le_value-le_bytes}
use merged_mining_pool.Header.{version_bytes, block_header}

-- What a node reads from the bytes of a header: numbers are little-endian, and hashes other than
-- the root are kept in the byte order that is the reverse of their printed form.
pub record Fields : Type 0 where
  pub version : ℕ
  pub previous : Bytes
  pub root : Bytes
  pub time : ℕ
  pub bits : ℕ
  pub nonce : ℕ

abbrev pub read_header : Bytes → Fields
read_header h = record {
  version = le_value (take 4 h);
  previous = reverse (take 32 (drop 4 h));
  root = take 32 (drop 32 (drop 4 h));
  time = le_value (take 4 (drop 32 (drop 32 (drop 4 h))));
  bits = le_value (take 4 (drop 4 (drop 32 (drop 32 (drop 4 h)))));
  nonce = le_value (drop 4 (drop 4 (drop 32 (drop 32 (drop 4 h)))));
}

-- The sizes of what a header is made from.
pub record IsSized (prev root time bits nonce : Bytes) : Type 0 where
  pub prev_32 : length prev ≡ 32
  pub root_32 : length root ≡ 32
  pub time_4 : length time ≡ 4
  pub bits_4 : length bits ≡ 4
  pub nonce_4 : length nonce ≡ 4
  pub are_bytes :
      All IsByte prev × (All IsByte root × (All IsByte time × (All IsByte bits × All IsByte nonce)))

length-reverse_go : (b : Bytes) {n : ℕ} → length b ≡ n → length (reverse_go b) ≡ n
length-reverse_go b e = ap length (reverse_go_lem b) ∙ length-reverse b ∙ e

read_parts :
    (v p r t b n : Bytes)
    → length v ≡ 4
    → length p ≡ 32
    → length r ≡ 32
    → length t ≡ 4
    → length b ≡ 4
    → read_header (v ++ (p ++ (r ++ (t ++ (b ++ n))))) ≡ record {
      version = le_value v;
      previous = reverse p;
      root = r;
      time = le_value t;
      bits = le_value b;
      nonce = le_value n;
    }
read_parts v p r t b n hv hp hr ht hb = rw (
  take-append v (p ++ (r ++ (t ++ (b ++ n)))) hv,
  drop-append v (p ++ (r ++ (t ++ (b ++ n)))) hv,
  take-append p (r ++ (t ++ (b ++ n))) hp,
  drop-append p (r ++ (t ++ (b ++ n))) hp,
  take-append r (t ++ (b ++ n)) hr,
  drop-append r (t ++ (b ++ n)) hr,
  take-append t (b ++ n) ht,
  drop-append t (b ++ n) ht,
  take-append b n hb,
  drop-append b n hb,
)

six :
    (v p r t b n : Bytes)
    → length (v ++ (p ++ (r ++ (t ++ (b ++ n)))))
      ≡ length v + length p + length r + length t + length b + length n
six v p r t b n = omega (
  arith,
  length-append {0} v (p ++ (r ++ (t ++ (b ++ n)))),
  length-append {0} p (r ++ (t ++ (b ++ n))),
  length-append {0} r (t ++ (b ++ n)),
  length-append {0} t (b ++ n),
  length-append {0} b n,
)

-- A node that gets the header of hex fields of the right sizes reads eighty bytes, and in them the
-- low 32 bits of the version, the previous hash and the root, and for the time, the bits and the
-- nonce the numbers that their hex prints highest byte first.
pub block_header-read :
    (version : ℕ) (prev root time bits nonce : Bytes)
    → IsSized prev root time bits nonce
    → (h : Bytes) × (block_header version
          (hex_encode prev)
          (hex_encode root)
          (hex_encode time)
          (hex_encode bits)
          (hex_encode nonce)
        ≡ ok (hex_encode h))
      × (length h ≡ 80)
      × (read_header h ≡ record {
        version = version % 2 ^ 32;
        previous = prev;
        root = root;
        time = le_value (reverse time);
        bits = le_value (reverse bits);
        nonce = le_value (reverse nonce);
      })
unfolding block_header version_bytes four_little_endian_bytes
block_header-read version prev root time bits nonce s =
    let (p, (r, (t, (b, n)))) = s.are_bytes in
    let v = le_bytes 4 (version % 2 ^ 32) in
    (
      v
          ++ (reverse_go prev
              ++ (root ++ (reverse_go time ++ (reverse_go bits ++ reverse_go nonce)))),
      rw (
        hex_decode-encode prev p,
        hex_decode-encode root r,
        hex_decode-encode time t,
        hex_decode-encode bits b,
        hex_decode-encode nonce n,
      ),
      omega (
        arith,
        six v (reverse_go prev) root (reverse_go time) (reverse_go bits) (reverse_go nonce),
        length-le_bytes 4 (version % 2 ^ 32),
        length-reverse_go prev s.prev_32,
        length-reverse_go time s.time_4,
        length-reverse_go bits s.bits_4,
        length-reverse_go nonce s.nonce_4,
        s.root_32,
      ),
      read_parts v (reverse_go prev) root (reverse_go time) (reverse_go bits) (reverse_go nonce)
            (length-le_bytes 4 (version % 2 ^ 32)) (length-reverse_go prev s.prev_32) s.root_32
            (length-reverse_go time s.time_4) (length-reverse_go bits s.bits_4)
          ∙ rw (
            le_value-le_bytes 4 (version % 2 ^ 32) (omega arith),
            reverse_go_lem prev,
            reverse-reverse prev,
            reverse_go_lem time,
            reverse_go_lem bits,
            reverse_go_lem nonce,
          ),
    )
