-- ===== src/Config/Numbers.antt =====
-- soaagent/conf.c, soaagent/util.c: numbers and addresses that are printed are read back.
use native.Mathlib.Nat.{
  mod-lt, mod-eq_of_lt, mul-add-mod_self_left, mul_assoc, mul_comm, add-mul, div-add-mod,
}
use ddmframework.Common.{
  map, ◌/◌, ℕ, ◌+◌, ◌-◌, ◌*◌, ◌%◌, ◌^◌, ◌≤◌, ◌<◌, ◌≡◌, ◌≢◌, refl, sym, ap, ap₂, ◌∙◌, false, List,
  [], ◌∷◌, ◌++◌, append_assoc, append-nil, none, some, arith, All, length, take_self, ltb, ◌==◌,
  if◌then◌else◌,
}
use ddmframework.Conn.{snprintf_s}
use ddmframework.Decimal.{print-le, print, read_from, read_from-print, IsDigit, print-All}
use ddmframework.Config.{
  at_most, digits_value, signed_value, atoi, tokens, multiply, get_config_item_int, split_colon,
  path_max, parse_path, parse_addr,
}

digits_value-read_from :
    (acc : ℕ) (s : List ℕ) → All IsDigit s → digits_value acc s ≡ read_from acc s
unfolding digits_value read_from
digits_value-read_from acc [] h = refl
digits_value-read_from acc (d ∷ s) (e, h) =
    ground (arith, digits_value-read_from (acc * 10 + (d - b'0')) s h)

atoi-read_from :
    (s : List ℕ) → All IsDigit s → read_from 0 s < 2 ^ 63 → atoi s ≡ read_from 0 s % 2 ^ 32
unfolding atoi signed_value at_most read_from
atoi-read_from [] h small = refl
atoi-read_from (d ∷ s) (e, h) small = ground (arith, digits_value-read_from 0 (d ∷ s) (e, h))

pub atoi-print : (n : ℕ) → n < 2 ^ 63 → atoi (print n) ≡ n % 2 ^ 32
atoi-print n small =
    atoi-read_from (print n) (print-All n) (rw (read_from-print n) small)
    ∙ ap (λ m. m % 2 ^ 32) (read_from-print n)

mod-mul_left : (a b m : ℕ) → (a % m * b) % m ≡ (a * b) % m
mod-mul_left a b m =
    sym (mul-add-mod_self_left m (a / m * b) (a % m * b))
    ∙ ap (λ x. x % m)
        (ap (λ y. y + a % m * b) (sym (mul_assoc m (a / m) b))
          ∙ sym (add-mul (m * (a / m)) (a % m) b)
          ∙ ap (λ y. y * b) (div-add-mod a m))

mod-mul_mid : (a b c m : ℕ) → (a * (b % m) % m * c) % m ≡ (a * (b * c)) % m
mod-mul_mid a b c m =
    mod-mul_left (a * (b % m)) c m
    ∙ ap (λ x. x % m) (ap (λ x. x * c) (mul_comm a (b % m)) ∙ mul_assoc (b % m) a c)
    ∙ mod-mul_left b (a * c) m
    ∙ ap (λ x. x % m) (sym (mul_assoc b a c) ∙ ap (λ x. x * c) (mul_comm b a) ∙ mul_assoc a b c)

unfoldable pub product : List ℕ → ℕ
product [] = 1
product (n ∷ ns) = n * product ns

-- A positive number of type `int`.
abbrev pub IsFactor : ℕ → Type 0
IsFactor n = (1 ≤ n) × (n < 2 ^ 31)

multiply-print :
    (acc : ℕ) (ns : List ℕ)
    → acc < 2 ^ 32
    → All IsFactor ns
    → multiply acc (map print ns) ≡ (acc * product ns) % 2 ^ 32
unfolding multiply product
multiply-print acc [] h small = omega arith
multiply-print acc (n ∷ ns) h ((some_n, small), smaller) =
    ap (λ x. multiply (acc * x % 2 ^ 32) (map print ns)) (atoi-print n (omega (arith, small)))
    ∙ (multiply-print (acc * (n % 2 ^ 32) % 2 ^ 32) ns
        (mod-lt (acc * (n % 2 ^ 32)) {m = 2 ^ 32} (omega arith)) smaller)
    ∙ mod-mul_mid acc n (product ns) (2 ^ 32)

-- The words of a text that stars separate.
unfoldable pub starred : List (List ℕ) → List ℕ
starred [] = []
starred (word ∷ []) = word
starred (word ∷ next ∷ words) = word ++ b'*' ∷ starred (next ∷ words)

abbrev NoStar : List ℕ → Type 0
NoStar = All (λ c. c ≢ b'*')

abbrev IsWord : List ℕ → Type 0
IsWord word = NoStar word × (1 ≤ length word)

no_star : (c : ℕ) → c ≢ b'*' → (c == b'*') ≡ false
no_star c ne = ground arith

tokens-longer :
    (t : ℕ) (token : List ℕ) (c : ℕ) (s : List ℕ)
    → c ≢ b'*'
    → tokens (t ∷ token) (c ∷ s) ≡ tokens (t ∷ (token ++ c ∷ [])) s
unfolding tokens
tokens-longer t token c s ne = rw (no_star c ne) refl

tokens-begun : (c : ℕ) (s : List ℕ) → c ≢ b'*' → tokens [] (c ∷ s) ≡ tokens (c ∷ []) s
unfolding tokens
tokens-begun c s ne = rw (no_star c ne) refl

tokens-scan :
    (t : ℕ) (token word s : List ℕ)
    → NoStar word
    → tokens (t ∷ token) (word ++ s) ≡ tokens (t ∷ (token ++ word)) s
tokens-scan t token [] s h = ap (λ x. tokens (t ∷ x) s) (sym (append-nil token))
tokens-scan t token (c ∷ word) s (ne, h) =
    tokens-longer t token c (word ++ s) ne
    ∙ tokens-scan t (token ++ c ∷ []) word s h
    ∙ ap (λ x. tokens (t ∷ x) s) (append_assoc token (c ∷ []) word)

tokens-starred : (words : List (List ℕ)) → All IsWord words → tokens [] (starred words) ≡ words
unfolding tokens starred
tokens-starred [] h = refl
tokens-starred ([] ∷ words) ((plain, le), h) = absurd (omega arith)
tokens-starred ((c ∷ word) ∷ []) (((ne, plain), le), h) =
    ap (tokens []) (sym (append-nil (c ∷ word)))
    ∙ tokens-begun c (word ++ []) ne
    ∙ tokens-scan c [] word [] plain
tokens-starred ((c ∷ word) ∷ next ∷ words) (((ne, plain), le), h) =
    tokens-begun c (word ++ b'*' ∷ starred (next ∷ words)) ne
    ∙ tokens-scan c [] word (b'*' ∷ starred (next ∷ words)) plain
    ∙ ap (◌∷◌ (c ∷ word)) (tokens-starred (next ∷ words) h)

digits-NoStar : (s : List ℕ) → All IsDigit s → NoStar s
digits-NoStar [] h = tt
digits-NoStar (d ∷ s) (e, h) = (omega arith, digits-NoStar s h)

numbers-All : (ns : List ℕ) → All IsWord (map print ns)
numbers-All [] = tt
numbers-All (n ∷ ns) = ((digits-NoStar (print n) (print-All n), print-le n), numbers-All ns)

-- A value of printed numbers with stars between them, shorter than 200 bytes, is their product,
-- when the numbers are positive and their product is an `int`; a longer value runs over the buffer,
-- and the default stands for no value.
pub get_config_item_int_lem :
    (ns : List ℕ) (default_value : ℕ)
    → All IsFactor ns
    → product ns < 2 ^ 31
    → (get_config_item_int (some (starred (map print ns))) default_value
        ≡ (if ltb (length (starred (map print ns))) 200 then some (product ns) else none))
      × (get_config_item_int none default_value ≡ some default_value)
unfolding get_config_item_int
get_config_item_int_lem ns default_value factors small = (
  rw (tokens-starred (map print ns) (numbers-All ns)) (
      rw (multiply-print 1 ns (omega arith) factors) (
        ap (λ m. if ltb (length (starred (map print ns))) 200 then some m else none)
          (omega (arith, small)))),
  refl,
)

no_colon : (c : ℕ) → c ≢ b':' → (c == b':') ≡ false
no_colon c ne = ground arith

split_colon-scan :
    (before host port : List ℕ)
    → All (λ c. c ≢ b':') host
    → split_colon before (host ++ b':' ∷ port) ≡ some (before ++ host, port)
unfolding split_colon
split_colon-scan before [] port h = ap (λ x. some (x, port)) (sym (append-nil before))
split_colon-scan before (c ∷ host) port (ne, h) = rw (no_colon c ne) (
    split_colon-scan (before ++ c ∷ []) host port h
    ∙ ap (λ x. some (x, port)) (append_assoc before (c ∷ []) host))

parse_path_lem :
    (c : ℕ) (host port : List ℕ) (ip_buf_len : ℕ)
    → All (λ c. c ≢ b':') host
    → parse_path (c ∷ host ++ b':' ∷ port) ip_buf_len
      ≡ some (snprintf_s ip_buf_len (c ∷ host), atoi port)
unfolding parse_path
parse_path_lem c host port ip_buf_len h =
    rw (split_colon-scan (c ∷ []) host port h, parse_path) refl

-- An address of a host, a colon and a printed port gives that host and that port back, for a host
-- without a colon after its first byte that fits its buffer and a port of 32 bits.
pub parse_addr_lem :
    (c : ℕ) (host : List ℕ) (port ip_buf_len : ℕ)
    → All (λ c. c ≢ b':') host
    → length (c ∷ host) < ip_buf_len
    → length (c ∷ host ++ b':' ∷ print port) < path_max
    → port < 2 ^ 32
    → parse_addr (c ∷ host ++ b':' ∷ print port) ip_buf_len ≡ some (c ∷ host, port)
unfolding parse_addr
parse_addr_lem c host port ip_buf_len h fits short small =
    ap (λ x. parse_path x ip_buf_len)
      (take_self (path_max - 1) (c ∷ host ++ b':' ∷ print port) (omega (arith, short)))
    ∙ parse_path_lem c host (print port) ip_buf_len h
    ∙ ap₂ (λ x y. some (x, y)) (take_self (ip_buf_len - 1) (c ∷ host) (omega (arith, fits)))
        (atoi-print port (omega (arith, small)) ∙ mod-eq_of_lt small)
