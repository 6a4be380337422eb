-- ===== src/Base64.antt =====
-- encoding/base64's StdEncoding of Go's library, which the machine controller uses on user data.
-- Texts are lists of bytes. Decoding does not skip line ends, which encoding never writes.
use openshift_capi_alicloud.Prelude.{
  ℕ, ◌+◌, ◌-◌, ◌*◌, ◌/◌, ◌%◌, ◌<◌, Bool, true, false, ◌&&◌, Option, none, some, List, [], ◌∷◌, ◌≡◌,
  refl, arith, All, ltb, leb, ◌==◌, nat_eq, if◌then◌else◌,
}

abbrev pub padding : ℕ
padding = b'='

pub char_of : ℕ → ℕ
char_of n =
    if ltb n 26
    then n + 65
    else if ltb n 52
    then n + 71
    else if ltb n 62
    then n - 4
    else if n == 62
    then b'+'
    else b'/'

pub value_of : ℕ → Option ℕ
value_of c =
    if leb b'A' c && leb c b'Z'
    then some (c - 65)
    else if leb b'a' c && leb c b'z'
    then some (c - 71)
    else if leb b'0' c && leb c b'9'
    then some (c + 4)
    else if c == b'+'
    then some 62
    else if c == b'/'
    then some 63
    else none

unfoldable pub encode : List ℕ → List ℕ
unfolding char_of
encode [] = []
encode (a ∷ []) = char_of (a / 4) ∷ char_of (a % 4 * 16) ∷ padding ∷ padding ∷ []
encode (a ∷ b ∷ []) =
    char_of (a / 4) ∷ char_of (a % 4 * 16 + b / 16) ∷ char_of (b % 16 * 4) ∷ padding ∷ []
encode (a ∷ b ∷ c ∷ rest) =
    char_of (a / 4)
    ∷ char_of (a % 4 * 16 + b / 16)
    ∷ char_of (b % 16 * 4 + c / 64)
    ∷ char_of (c % 64)
    ∷ encode rest

infixl 5 ◌>>=◌
abbrev ◌>>=◌ : {A B : Type 0} → Option A → (A → Option B) → Option B
none >>= f = none
some a >>= f = f a

-- A group of four characters, before the decoded rest of a text that goes on or not.
pub decode_group : (p q r s : ℕ) (is_end : Bool) → Option (List ℕ) → Option (List ℕ)
unfolding value_of
decode_group p q r s is_end rest = value_of p >>= λ i. value_of q >>= λ j.
    if is_end && (r == padding && s == padding)
    then some ((i * 4 + j / 16) ∷ [])
    else value_of r >>= λ k.
        if is_end && s == padding
        then some ((i * 4 + j / 16) ∷ (j % 16 * 16 + k / 4) ∷ [])
        else value_of s >>= λ l. rest >>= λ bytes.
            some ((i * 4 + j / 16) ∷ (j % 16 * 16 + k / 4) ∷ (k % 4 * 64 + l) ∷ bytes)

value_of-char_of : (n : ℕ) → n < 64 → value_of (char_of n) ≡ some n
unfolding value_of char_of
value_of-char_of n h = ground arith

char_of-ne-padding : (n : ℕ) → n < 64 → (char_of n == padding) ≡ false
unfolding char_of
char_of-ne-padding n h = ground arith

-- The characters of a group whose sextets are `i j k l`.
decode_group-char_of :
    (i j k l : ℕ) (is_end : Bool) (rest : Option (List ℕ))
    → i < 64
    → j < 64
    → k < 64
    → l < 64
    → decode_group (char_of i) (char_of j) (char_of k) (char_of l) is_end rest ≡ (
        rest >>= λ bytes.
        some ((i * 4 + j / 16) ∷ (j % 16 * 16 + k / 4) ∷ (k % 4 * 64 + l) ∷ bytes))
unfolding decode_group
decode_group-char_of i j k l is_end rest p q r s = ground (
  arith,
  value_of-char_of i p,
  value_of-char_of j q,
  value_of-char_of k r,
  value_of-char_of l s,
  char_of-ne-padding l s,
)

decode_group_of_one :
    (i j : ℕ) (rest : Option (List ℕ))
    → i < 64
    → j < 64
    → decode_group (char_of i) (char_of j) padding padding true rest ≡ some ((i * 4 + j / 16) ∷ [])
unfolding decode_group
decode_group_of_one i j rest p q = ground (arith, value_of-char_of i p, value_of-char_of j q)

decode_group_of_two :
    (i j k : ℕ) (rest : Option (List ℕ))
    → i < 64
    → j < 64
    → k < 64
    → decode_group (char_of i) (char_of j) (char_of k) padding true rest
      ≡ some ((i * 4 + j / 16) ∷ (j % 16 * 16 + k / 4) ∷ [])
unfolding decode_group
decode_group_of_two i j k rest p q r = ground (
  arith,
  value_of-char_of i p,
  value_of-char_of j q,
  value_of-char_of k r,
  char_of-ne-padding k r,
)

abbrev pub is_nil : List ℕ → Bool
is_nil [] = true
is_nil (_ ∷ _) = false

unfoldable pub decode : List ℕ → Option (List ℕ)
unfolding decode_group
decode [] = some []
decode (p ∷ q ∷ r ∷ s ∷ rest) = decode_group p q r s (is_nil rest) (decode rest)
decode _ = none

-- A text of bytes comes back from its encoding.
pub decode-encode : (bytes : List ℕ) → All (λ b. b < 256) bytes → decode (encode bytes) ≡ some bytes
unfolding encode decode_group decode
decode-encode [] h = refl
decode-encode (a ∷ []) (p, _) =
    rw (decode_group_of_one (a / 4) (a % 4 * 16) (some []) (omega arith) (omega arith))
      (ground arith)
decode-encode (a ∷ b ∷ []) (p, (q, _)) =
    rw
      (decode_group_of_two (a / 4) (a % 4 * 16 + b / 16) (b % 16 * 4) (some []) (omega arith)
        (omega arith) (omega arith))
      (ground arith)
decode-encode (a ∷ b ∷ c ∷ rest) (p, (q, (r, h))) =
    rw
      (
        decode_group-char_of (a / 4) (a % 4 * 16 + b / 16) (b % 16 * 4 + c / 64) (c % 64) _ _
            (omega arith) (omega arith) (omega arith) (omega arith),
        decode-encode rest h,
      )
      (ground arith)
