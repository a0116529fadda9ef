-- ===== src/Coinbase/Script.antt =====
-- The length of the coinbase script that `CoinbaseInitial` declares.
use merged_mining_pool.Common.{
  ℕ, suc, ◌+◌, ◌*◌, ◌%◌, ◌^◌, ◌<◌, ◌≡◌, refl, ◌++◌, arith, length, length-append, ok, >>=-eq-ok,
  Bytes,
}
use merged_mining_pool.Hex.{hex_encode}
use merged_mining_pool.Hex.RoundTrip.{length-hex_encode}
use merged_mining_pool.Template.{Template}
use merged_mining_pool.Encoding.{bytes_with_length_header}
use merged_mining_pool.Coinbase.{encode_number, CoinbaseInitial, coinbase_initial}
use merged_mining_pool.Coinbase.Height.{encode_number_size}

length-header : (bs : Bytes) → length (bytes_with_length_header bs) ≡ suc (length bs)
unfolding bytes_with_length_header
length-header bs = refl

-- The script of a coinbase, in hex: the height of the initial half, the extranonces of eight
-- bytes, and the arbitrary bytes behind their length, with which the final half begins.
-- The length that `CoinbaseInitial` declares for it, called with eight reserved bytes, is its
-- length in bytes, for every arbitrary text of less than 2 ^ 62 bytes.
pub script_length :
    (t : Template) (arbitrary extranonce : Bytes) {i : CoinbaseInitial}
    → coinbase_initial t (length (bytes_with_length_header arbitrary) + 8) ≡ ok i
    → length extranonce ≡ 16
    → length arbitrary < 2 ^ 62
    → length (i.height_hex ++ (extranonce ++ hex_encode (bytes_with_length_header arbitrary)))
      ≡ 2 * i.bytes_in_arbitrary
unfolding coinbase_initial
script_length t arbitrary extranonce {i} e h b =
    let (height, pushed, made) = >>=-eq-ok (encode_number t.height) _ e in
    let text : i.height_hex ≡ hex_encode height = cc in
    let declared : i.bytes_in_arbitrary ≡ (size + 8 + length height) % 2 ^ 64 = cc in
    rw (text, declared)
      (omega (
        arith,
        length-append {0} (hex_encode height)
            (extranonce ++ hex_encode (bytes_with_length_header arbitrary)),
        length-append {0} extranonce (hex_encode (bytes_with_length_header arbitrary)),
        length-hex_encode height,
        length-hex_encode (bytes_with_length_header arbitrary),
        encode_number_size t.height pushed,
        length-header arbitrary,
      ))
  where
    size : ℕ
    size = length (bytes_with_length_header arbitrary)
