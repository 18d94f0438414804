-- ===== src/ExternalUrl/Dotted.antt =====
-- The test of an IPv4 address, on the text of the address and on its number.
use Prim.Native.Char.{Char, char, code}
use hivepoint_backend.Common.{
  ℕ, zero, suc, ◌+◌, ◌-◌, ◌*◌, ◌/◌, ◌%◌, ◌^◌, ◌<◌, ◌≡◌, refl, ap, ◌∙◌, inl, inr, String, Bool,
  Option, some, List, [], ◌∷◌, ◌==◌, ◌&&◌, ◌||◌, leb, ltb, any, arith, Bool-cases, split,
  onto_first, decimal_from, if◌then◌else◌,
}
use hivepoint_backend.ExternalUrl.{is_private_octets, is_private_parts, numbers, is_private_ipv4}

-- The digit of a number below ten.
digit : ℕ → Char
digit zero = char 48 tt
digit (suc zero) = char 49 tt
digit (suc (suc zero)) = char 50 tt
digit (suc (suc (suc zero))) = char 51 tt
digit (suc (suc (suc (suc zero)))) = char 52 tt
digit (suc (suc (suc (suc (suc zero))))) = char 53 tt
digit (suc (suc (suc (suc (suc (suc zero)))))) = char 54 tt
digit (suc (suc (suc (suc (suc (suc (suc zero))))))) = char 55 tt
digit (suc (suc (suc (suc (suc (suc (suc (suc zero)))))))) = char 56 tt
digit _ = char 57 tt

code-digit : (k : ℕ) → k < 10 → code (digit k) ≡ 48 + k
unfolding digit
code-digit zero h = refl
code-digit (suc zero) h = refl
code-digit (suc (suc zero)) h = refl
code-digit (suc (suc (suc zero))) h = refl
code-digit (suc (suc (suc (suc zero)))) h = refl
code-digit (suc (suc (suc (suc (suc zero))))) h = refl
code-digit (suc (suc (suc (suc (suc (suc zero)))))) h = refl
code-digit (suc (suc (suc (suc (suc (suc (suc zero))))))) h = refl
code-digit (suc (suc (suc (suc (suc (suc (suc (suc zero)))))))) h = refl
code-digit (suc (suc (suc (suc (suc (suc (suc (suc (suc zero))))))))) h = refl
code-digit (suc (suc (suc (suc (suc (suc (suc (suc (suc (suc k)))))))))) h =
    absurd (omega (arith, h))

-- A number below 1000 in decimal, before a text.
octet_text : ℕ → String → String
octet_text n rest =
    if ltb n 10
    then String.◌∷◌ (digit n) rest
    else if ltb n 100
    then String.◌∷◌ (digit (n / 10)) (String.◌∷◌ (digit (n % 10)) rest)
    else String.◌∷◌ (digit (n / 100))
        (String.◌∷◌ (digit (n / 10 % 10)) (String.◌∷◌ (digit (n % 10)) rest))

-- The text of an IPv4 address.
pub dotted : ℕ → ℕ → ℕ → ℕ → String
unfolding octet_text
dotted a b c d = octet_text a (
    String.◌∷◌ (char 46 tt) (
      octet_text b (
        String.◌∷◌ (char 46 tt) (octet_text c (String.◌∷◌ (char 46 tt) (octet_text d String.[]))))))

dotted_text : dotted 172 16 254 1 ≡ "172.16.254.1"
unfolding dotted digit
dotted_text = refl

-- The numbers between full stops, the first of which goes on from `n`.
read_pieces : ℕ → List String → List (Option ℕ)
read_pieces n [] = []
read_pieces n (piece ∷ pieces) = decimal_from n piece ∷ numbers pieces

read : ℕ → String → List (Option ℕ)
read n s = read_pieces n (split 46 s)

read_pieces-onto_first :
    (n k : ℕ) (c : Char) (pieces : List String)
    → code c ≡ 48 + k
    → k < 10
    → (piece : String) × (rest : List String) × (pieces ≡ piece ∷ rest)
    → read_pieces n (onto_first c pieces) ≡ read_pieces (n * 10 + k) pieces
unfolding read_pieces
read_pieces-onto_first n k c [] is small (piece, rest, e) = absurd (ground (arith, e))
read_pieces-onto_first n k c (piece ∷ rest) is small e = ground (arith, is, small)

split_some : (s : String) → (piece : String) × (rest : List String) × (split 46 s ≡ piece ∷ rest)
split_some String.[] = ("", [], refl)
split_some (String.◌∷◌ c s) = elim (Bool-cases (code c == 46)) [
  | inl stop ↦ ("", split 46 s, ground (arith, stop))
  | inr other ↦
      let (piece, rest, e) = split_some s in (String.◌∷◌ c piece, rest, ground (arith, other, e))
]

read-digit : (n k : ℕ) (s : String) → k < 10 → read n (String.◌∷◌ (digit k) s) ≡ read (n * 10 + k) s
unfolding read
read-digit n k s small = elim (Bool-cases (code (digit k) == 46)) [
  | inl stop ↦ absurd (ground (arith, stop, code-digit k small))
  | inr other ↦
      rw (read, other)
        (read_pieces-onto_first n k (digit k) (split 46 s) (code-digit k small) small
          (split_some s))
]

read_stop :
    (n : ℕ) (s : String) → read n (String.◌∷◌ (char 46 tt) s) ≡ some n ∷ numbers (split 46 s)
unfolding read read_pieces
read_stop n s = refl

-- The same, where the number that the digit leads to is known.
read_to :
    (n k m : ℕ) (s : String) → k < 10 → n * 10 + k ≡ m → read n (String.◌∷◌ (digit k) s) ≡ read m s
read_to n k m s small e = read-digit n k s small ∙ ap (λ (x : ℕ). read x s) e

read_octet : (n : ℕ) (s : String) → n < 1000 → read 0 (octet_text n s) ≡ read n s
unfolding octet_text
read_octet n s small = elim (Bool-cases (ltb n 10)) [
  | inl one ↦ rw (octet_text, one) (read_to 0 n n s (ground (arith, one)) (omega arith))
  | inr more ↦ elim (Bool-cases (ltb n 100)) [
    | inl two ↦
        rw (octet_text, more, two)
          (read_to 0 (n / 10) (n / 10) _ (ground (arith, two)) (omega arith)
            ∙ read_to (n / 10) (n % 10) n s (omega arith) (omega arith))
    | inr three ↦
        rw (octet_text, more, three)
          (read_to 0 (n / 100) (n / 100) _ (omega arith) (omega arith)
            ∙ (read_to (n / 100) (n / 10 % 10) (n / 10) _ (omega arith) (omega arith)
                ∙ read_to (n / 10) (n % 10) n s (omega arith) (omega arith)))
  ]
]

read_zero : (s : String) → numbers (split 46 s) ≡ read 0 s
unfolding read read_pieces
read_zero s = let (piece, rest, e) = split_some s in ground (arith, e)

octet_stop :
    (n : ℕ) (rest : String)
    → n < 256
    → numbers (split 46 (octet_text n (String.◌∷◌ (char 46 tt) rest)))
      ≡ some n ∷ numbers (split 46 rest)
octet_stop n rest small =
    read_zero _
    ∙ (read_octet n (String.◌∷◌ (char 46 tt) rest) (omega (arith, small)) ∙ read_stop n rest)

octet_end : (n : ℕ) → n < 256 → numbers (split 46 (octet_text n String.[])) ≡ some n ∷ []
unfolding read read_pieces
octet_end n small =
    read_zero (octet_text n String.[]) ∙ read_octet n String.[] (omega (arith, small))

-- The blocks of addresses that are private or reserved, by their first address and the length of
-- their prefix.
abbrev pub private_blocks : List (ℕ × ℕ)
private_blocks =
    (0, 8)
    ∷ (10 * 2 ^ 24, 8)
    ∷ (127 * 2 ^ 24, 8)
    ∷ (100 * 2 ^ 24 + 64 * 2 ^ 16, 10)
    ∷ (169 * 2 ^ 24 + 254 * 2 ^ 16, 16)
    ∷ (172 * 2 ^ 24 + 16 * 2 ^ 16, 12)
    ∷ (192 * 2 ^ 24 + 168 * 2 ^ 16, 16)
    ∷ (198 * 2 ^ 24 + 18 * 2 ^ 16, 15)
    ∷ []

-- An address is in a block where it begins with the block's prefix.
abbrev pub is_in_block : ℕ → ℕ × ℕ → Bool
is_in_block address (base, prefix) = address / 2 ^ (32 - prefix) == base / 2 ^ (32 - prefix)

abbrev pub address_of : ℕ → ℕ → ℕ → ℕ → ℕ
address_of a b c d = a * 2 ^ 24 + b * 2 ^ 16 + c * 2 ^ 8 + d

module _ (a b c d : ℕ) (a_octet : a < 256) (b_octet : b < 256) (c_octet : c < 256)
    (d_octet : d < 256) where
  -- The numbers that are read from the text of an address of four octets, written in decimal with
  -- full stops between them, are its octets.
  numbers-dotted : numbers (split 46 (dotted a b c d)) ≡ some a ∷ some b ∷ some c ∷ some d ∷ []
  unfolding dotted
  numbers-dotted =
      octet_stop a _ a_octet
      ∙ ap (λ (l : List (Option ℕ)). some a ∷ l)
          (octet_stop b _ b_octet
            ∙ ap (λ (l : List (Option ℕ)). some b ∷ l)
                (octet_stop c _ c_octet
                  ∙ ap (λ (l : List (Option ℕ)). some c ∷ l) (octet_end d d_octet)))

  -- The prefixes of the address, by its octets.
  prefixes :
      (address_of a b c d / 2 ^ 24 ≡ a)
      × (address_of a b c d / 2 ^ 22 ≡ a * 4 + b / 64)
      × (address_of a b c d / 2 ^ 20 ≡ a * 16 + b / 16)
      × (address_of a b c d / 2 ^ 17 ≡ a * 128 + b / 2)
      × (address_of a b c d / 2 ^ 16 ≡ a * 256 + b)
  prefixes = (omega arith, omega arith, omega arith, omega arith, omega arith)

  octets-blocks : is_private_octets a b ≡ any (is_in_block (address_of a b c d)) private_blocks
  unfolding is_private_octets
  octets-blocks =
      let (by_8, by_10, by_12, by_15, by_16) = prefixes in
      let carrier : (a == 100 && (leb 64 b && leb b 127)) ≡ (a * 4 + b / 64 == 401) =
        ground arith in
      let link : (a == 169 && b == 254) ≡ (a * 256 + b == 43518) = ground arith in
      let local : (a == 172 && (leb 16 b && leb b 31)) ≡ (a * 16 + b / 16 == 2753) = ground arith in
      let home : (a == 192 && b == 168) ≡ (a * 256 + b == 49320) = ground arith in
      let bench : (a == 198 && (b == 18 || b == 19)) ≡ (a * 128 + b / 2 == 25353) = ground arith in
      rw (by_8, by_10, by_12, by_15, by_16, carrier, link, local, home, bench) (ground arith)

  -- An address of four octets, written in decimal with full stops, is taken for private exactly where
  -- its number lies in one of the eight blocks 0.0.0.0/8, 10.0.0.0/8, 127.0.0.0/8, 100.64.0.0/10,
  -- 169.254.0.0/16, 172.16.0.0/12, 192.168.0.0/16 and 198.18.0.0/15.
  pub is_private_ipv4-dotted :
      is_private_ipv4 (dotted a b c d) ≡ any (is_in_block (address_of a b c d)) private_blocks
  unfolding is_private_ipv4 is_private_parts
  is_private_ipv4-dotted = rw (is_private_ipv4, numbers-dotted) octets-blocks
