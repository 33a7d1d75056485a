-- ===== src/Wallet/Addresses.antt =====
-- Wallet addresses and their checksum (bank/wallet.js): `encode`, `checksumFor`, `addressFor`,
-- `parseAddress`.
use agents_playground.Prelude.{
  ℕ, zero, suc, ◌+◌, ◌-◌, ◌*◌, ◌/◌, ◌%◌, Bool, true, false, not, [], ◌∷◌, ◌++◌, ◌==◌, ◌&&◌, ◌||◌,
  leb, Chars, codes, upper, lower, is_capital, all, is_empty, trim, chars_eq, length, take, drop,
  if◌then◌else◌,
}
use agents_playground.Db.{Result, ok, err, Error}

-- `ALPHABET`: Crockford's base 32.
abbrev pub alphabet : Chars
alphabet = codes "0123456789ABCDEFGHJKMNPQRSTVWXYZ"

-- `PREFIX`
abbrev pub prefix : Chars
prefix = codes "pbx1"

-- `BODY_LENGTH`
abbrev pub body_length : ℕ
body_length = 10

-- `CHECKSUM_LENGTH`
abbrev pub checksum_length : ℕ
checksum_length = 3

-- Node's hash, as the bytes of the digest of a text, and how the owner's id is written.
pub record Hash : Type 0 where
  pub sha256 : Chars → ℕ → ℕ
  pub user_text : ℕ → Chars

abbrev pub nth : ℕ → Chars → ℕ
nth i [] = b'0'
nth zero (c ∷ cs) = c
nth (suc i) (c ∷ cs) = nth i cs

-- `ALPHABET[n % ALPHABET.length]`
abbrev pub letter : ℕ → ℕ
letter n = nth (n % 32) alphabet

-- The characters that are left to write, in front of those written.
abbrev pub encode_before : ℕ → ℕ → Chars → Chars
encode_before zero left out = out
encode_before (suc count) left out = encode_before count (left / 32) (letter left ∷ out)

-- A number as a fixed number of base-32 characters.
unfoldable pub encode : ℕ → ℕ → Chars
encode value count = encode_before count value []

-- The first three bytes of the digest, joined by shifts.
abbrev pub checksum_value : Hash → Chars → Chars → ℕ
checksum_value h symbol body =
    let digest = h.sha256 (upper symbol ++ b':' ∷ body) in
    digest 0 * 65536 + digest 1 * 256 + digest 2

-- The checksum covers the symbol and the body.
unfoldable pub checksum_for : Hash → Chars → Chars → Chars
unfolding encode
checksum_for h symbol body = encode (checksum_value h symbol body % 32768) checksum_length

-- The loop of `addressFor`: so many characters, from the i-th byte on.
abbrev pub body_from : (ℕ → ℕ) → ℕ → ℕ → Chars
body_from digest zero i = []
body_from digest (suc count) i = letter (digest i) ∷ body_from digest count (i + 1)

abbrev pub body_digest : Hash → ℕ → Chars → ℕ → ℕ
body_digest h user_id symbol =
    h.sha256 (codes "wallet:" ++ h.user_text user_id ++ b':' ∷ upper symbol)

unfoldable pub body_for : Hash → ℕ → Chars → Chars
body_for h user_id symbol = body_from (body_digest h user_id symbol) body_length 0

-- pbx1btc7K2M9QX4RT8ZV
unfoldable pub address_for : Hash → ℕ → Chars → Chars
unfolding body_for checksum_for
address_for h user_id symbol =
    let body = body_for h user_id symbol in
    prefix ++ (lower symbol ++ (body ++ checksum_for h symbol body))

abbrev pub starts_with : Chars → Chars → Bool
starts_with [] cs = true
starts_with (p ∷ ps) [] = false
starts_with (p ∷ ps) (c ∷ cs) = p == c && starts_with ps cs

abbrev pub is_member : Chars → ℕ → Bool
is_member [] c = false
is_member (a ∷ more) c = a == c || is_member more c

-- `^[…]+$`
abbrev pub is_word : (ℕ → Bool) → Chars → Bool
is_word p cs = not (is_empty cs) && all p cs

-- The coin, the body and the checksum of what follows the prefix.
unfoldable pub split_tail : Chars → Chars × Chars × Chars
split_tail rest =
    let n = length rest - (body_length + checksum_length) in
    (upper (take n rest), take body_length (drop n rest), drop body_length (drop n rest))

unfoldable pub check_parts : Hash → Chars × Chars × Chars → Result (Chars × Chars)
unfolding checksum_for
check_parts h (symbol, body, checksum) =
    if is_word is_capital symbol && is_word (is_member alphabet) body
    then if chars_eq (checksum_for h symbol body) (upper checksum)
      then ok (symbol, body)
      else err Error.bad_address
    else err Error.bad_address

-- Every error is a `BadAddressError`.
unfoldable pub parse_address : Hash → Chars → Result (Chars × Chars)
unfolding split_tail check_parts
parse_address h address =
    let value = trim address in
    let rest = drop 4 value in
    if starts_with prefix value && not (leb (length rest) (body_length + checksum_length))
    then check_parts h (split_tail rest)
    else err Error.bad_address
