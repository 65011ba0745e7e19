-- ===== src/Base/Bytes.antt =====
-- C strings: a text is the list of its bytes, without the NUL that ends it.
use Prim.Native.Char.{code}
use Prim.Native.String.{String}
use Prim.Native.Nat.{ℕ, zero, suc, ◌+◌, ◌-◌, ◌*◌, ◌/◌, ◌%◌, ◌^◌, ◌<◌}
use mathlib.Core.Path.{◌≡◌, refl, ap}
use mathlib.Core.Bool.{Bool, true, false, ◌&&◌, ◌||◌}
use mathlib.Core.List.{List, [], ◌∷◌, ◌++◌}
use mathlib.Core.Option.{Option, none, some}
use native.Mathlib.Omega.{arith}
use git.Base.Lists.{length, drop, length-append}
use git.Base.Tests.{◌==◌, leb, ltb, if◌then◌else◌}

abbrev pub Bytes : Type 0
Bytes = List ℕ

-- The bytes of an ASCII text.
abbrev pub codes : String → Bytes
codes String.[] = []
codes (String.◌∷◌ c s) = code c ∷ codes s

-- What `strlen`, `%s` and `strcpy` see of a buffer: the bytes before the first NUL.
unfoldable pub c_str : Bytes → Bytes
c_str [] = []
c_str (x ∷ xs) = if x == 0 then [] else x ∷ c_str xs

-- `strncmp(a, b, n) == 0` on two texts.
unfoldable pub strncmp_eq : ℕ → Bytes → Bytes → Bool
strncmp_eq zero a b = true
strncmp_eq (suc n) [] [] = true
strncmp_eq (suc n) (x ∷ a) (y ∷ b) = x == y && strncmp_eq n a b
strncmp_eq (suc n) _ _ = false

-- `strcmp(a, b) == 0` on two texts.
unfoldable pub strcmp_eq : Bytes → Bytes → Bool
strcmp_eq [] [] = true
strcmp_eq (x ∷ a) (y ∷ b) = x == y && strcmp_eq a b
strcmp_eq _ _ = false

strcmp_eq_sound : (a b : Bytes) → strcmp_eq a b ≡ true → a ≡ b
unfolding strcmp_eq
strcmp_eq_sound [] [] h = refl
strcmp_eq_sound (x ∷ a) (y ∷ b) h = ground (arith, strcmp_eq_sound a b)
strcmp_eq_sound [] (y ∷ b) h = cc
strcmp_eq_sound (x ∷ a) [] h = cc

strcmp_eq_refl : (a : Bytes) → strcmp_eq a a ≡ true
unfolding strcmp_eq
strcmp_eq_refl [] = refl
strcmp_eq_refl (x ∷ a) = ground (arith, strcmp_eq_refl a)

-- `s[strlen(s) - 1] = '\0'` on a text that is not empty.
unfoldable pub chop : Bytes → Bytes
chop [] = []
chop (x ∷ []) = []
chop (x ∷ y ∷ xs) = x ∷ chop (y ∷ xs)

-- `s[strlen(s) - 1] = '\0'` on any text; `none` is the write before it that an empty one leads to.
unfoldable pub cut_text : Bytes → Option Bytes
cut_text [] = none
cut_text (x ∷ text) = some (chop (x ∷ text))

chop-append : (x : ℕ) (t : Bytes) (y : ℕ) → chop (x ∷ (t ++ (y ∷ []))) ≡ x ∷ t
unfolding chop
chop-append x [] y = refl
chop-append x (z ∷ t) y = ap (λ (k : Bytes). x ∷ k) (chop-append z t y)

pub cut_text-line : (t : Bytes) → cut_text (t ++ (10 ∷ [])) ≡ some t
unfolding cut_text chop
cut_text-line [] = refl
cut_text-line (x ∷ t) = ap some (chop-append x t 10)

-- `strstr(s, t) != NULL`
unfoldable starts_with : Bytes → Bytes → Bool
starts_with s [] = true
starts_with [] (y ∷ t) = false
starts_with (x ∷ s) (y ∷ t) = x == y && starts_with s t

unfoldable pub contains : Bytes → Bytes → Bool
unfolding starts_with
contains [] t = starts_with [] t
contains (x ∷ s) t = starts_with (x ∷ s) t || contains s t

unfoldable digits_value : ℕ → Bytes → ℕ
digits_value acc [] = acc
digits_value acc (x ∷ s) = elim (leb b'0' x && leb x b'9') [
  | true ↦ digits_value (acc * 10 + (x - b'0')) s
  | false ↦ acc
]

-- The number behind a sign, if there is one, modulo 2 ^ 32.
unfoldable signed_value : Bytes → ℕ
unfolding digits_value
signed_value [] = 0
signed_value (x ∷ s) =
    let behind = digits_value 0 s % 2 ^ 32 in
    if x == b'-'
    then (2 ^ 32 - behind) % 2 ^ 32
    else if x == b'+'
    then behind
    else digits_value 0 (x ∷ s) % 2 ^ 32

-- `atoi`, as the unsigned int that the result becomes: the number at the front of a text, after any
-- spaces and with its sign.
unfoldable pub atoi : Bytes → ℕ
unfolding signed_value
atoi [] = 0
atoi (x ∷ s) =
    let rest = atoi s in if x == b' ' || (leb 9 x && leb x 13) then rest else signed_value (x ∷ s)

-- `%lu`: at most 20 digits.
unfoldable pub decimal_digits : ℕ → ℕ → Bytes
decimal_digits zero n = []
decimal_digits (suc k) n =
    let more = decimal_digits k (n / 10) in
    if ltb n 10 then (b'0' + n) ∷ [] else more ++ ((b'0' + n % 10) ∷ [])

unfoldable pub decimal : ℕ → Bytes
unfolding decimal_digits
decimal n = decimal_digits 20 n

-- A text and its NUL, written over the front of a buffer.
unfoldable pub write_text : Bytes → Bytes → Bytes
write_text text buf = text ++ (0 ∷ drop (suc (length text)) buf)

-- No byte is NUL.
unfoldable pub no_nul : Bytes → Bool
no_nul [] = true
no_nul (x ∷ xs) = if x == 0 then false else no_nul xs

pub c_str-append : (text rest : Bytes) → no_nul text ≡ true → c_str (text ++ (0 ∷ rest)) ≡ text
unfolding c_str no_nul
c_str-append [] rest h = refl
c_str-append (x ∷ text) rest h = ground (arith, c_str-append text rest)

pub c_str-write_text : (text buf : Bytes) → no_nul text ≡ true → c_str (write_text text buf) ≡ text
unfolding write_text
c_str-write_text text buf h = c_str-append text (drop (suc (length text)) buf) h

length-drop : (n : ℕ) (xs : Bytes) → length (drop n xs) ≡ length xs - n
length-drop zero xs = omega arith
length-drop (suc n) [] = omega arith
length-drop (suc n) (x ∷ xs) = omega (arith, length-drop n xs)

pub length-write_text :
    (text buf : Bytes) → length text < length buf → length (write_text text buf) ≡ length buf
unfolding write_text
length-write_text text buf h = omega (
  arith,
  length-append text (0 ∷ drop (suc (length text)) buf),
  length-drop (suc (length text)) buf,
)

pub c_str-whole : (b : Bytes) → no_nul b ≡ true → c_str b ≡ b
unfolding c_str no_nul
c_str-whole [] h = refl
c_str-whole (x ∷ b) h = ground (arith, c_str-whole b)

pub no_nul-c_str : (b : Bytes) → no_nul (c_str b) ≡ true
unfolding c_str no_nul
no_nul-c_str [] = refl
no_nul-c_str (x ∷ b) = ground (arith, no_nul-c_str b)

pub no_nul-append : (a b : Bytes) → no_nul a ≡ true → no_nul b ≡ true → no_nul (a ++ b) ≡ true
unfolding no_nul
no_nul-append [] b h k = k
no_nul-append (x ∷ a) b h k = ground (arith, no_nul-append a b)
