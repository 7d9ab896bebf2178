-- ===== src/Text/Decimal.antt =====
-- The decimal digits that fmt writes for %d, and the reading that inverts them.
use Prim.Native.Char.{Char, code}
use nginx_k8s_loadbalancer.Base.{
  ℕ, zero, suc, ◌+◌, ◌-◌, ◌*◌, ◌/◌, ◌%◌, ◌≤◌, ◌<◌, String, ◌≡◌, refl, ap, ◌∙◌, true, false, arith,
  ltb, Bool-cases, ◌≢◌, ◌⊎◌, inl, inr, nat_eq, if◌then◌else◌,
}
use text.Mathlib.TextLemmas.{nil-append, cons-append}
use nginx_k8s_loadbalancer.Text.{◌⧺◌}
use nginx_k8s_loadbalancer.Text.Split.{Lacks}

digit : ℕ → Char
digit zero = "0"
digit (suc zero) = "1"
digit (suc (suc zero)) = "2"
digit (suc (suc (suc zero))) = "3"
digit (suc (suc (suc (suc zero)))) = "4"
digit (suc (suc (suc (suc (suc zero))))) = "5"
digit (suc (suc (suc (suc (suc (suc zero)))))) = "6"
digit (suc (suc (suc (suc (suc (suc (suc zero))))))) = "7"
digit (suc (suc (suc (suc (suc (suc (suc (suc zero)))))))) = "8"
digit _ = "9"

digits_from : ℕ → ℕ → String → String
digits_from zero n out = out
digits_from (suc fuel) n out =
    let longer = String.◌∷◌ (digit (n % 10)) out in
    let rest = digits_from fuel (n / 10) longer in if ltb n 10 then longer else rest

-- A number below its successor has fewer digits than that, so the fuel is enough.
unfoldable pub decimal : ℕ → String
unfolding digits_from digit
decimal n = digits_from (suc n) n ""

-- %d of a Go integer; `negsuc n` is -(n + 1).
pub data ℤ : Type 0 where
  pos : ℕ → ℤ
  negsuc : ℕ → ℤ

unfoldable pub format : ℤ → String
unfolding decimal
format (pos n) = decimal n
format (negsuc n) = "-" ⧺ decimal (suc n)

read_from : ℕ → String → ℕ
read_from n String.[] = n
read_from n (String.◌∷◌ c s) = read_from (n * 10 + (code c - b'0')) s

-- The number that a text of decimal digits stands for.
pub read : String → ℕ
unfolding read_from
read s = read_from 0 s

code-digit : (d : ℕ) → d < 10 → code (digit d) - b'0' ≡ d
unfolding digit
code-digit zero h = refl
code-digit (suc zero) h = refl
code-digit (suc (suc zero)) h = refl
code-digit (suc (suc (suc zero))) h = refl
code-digit (suc (suc (suc (suc zero)))) h = refl
code-digit (suc (suc (suc (suc (suc zero))))) h = refl
code-digit (suc (suc (suc (suc (suc (suc zero)))))) h = refl
code-digit (suc (suc (suc (suc (suc (suc (suc zero))))))) h = refl
code-digit (suc (suc (suc (suc (suc (suc (suc (suc zero)))))))) h = refl
code-digit (suc (suc (suc (suc (suc (suc (suc (suc (suc d))))))))) h = omega arith

last : (n : ℕ) → n < 10 → 0 * 10 + (code (digit (n % 10)) - b'0') ≡ n
last n h = omega (arith, code-digit (n % 10) (omega arith))

more : (n : ℕ) → n / 10 * 10 + (code (digit (n % 10)) - b'0') ≡ n
more n = omega (arith, code-digit (n % 10) (omega arith))

shorter : (n fuel : ℕ) → n < suc fuel → 10 ≤ n → n / 10 < fuel
shorter n fuel h big = omega arith

ltb→lt : (a b : ℕ) → ltb a b ≡ true → a < b
ltb→lt a b h = ground arith

ltb→ge : (a b : ℕ) → ltb a b ≡ false → b ≤ a
ltb→ge a b h = ground arith

read_from-digits_from :
    (fuel n : ℕ) (out : String) → n < fuel → read_from 0 (digits_from fuel n out) ≡ read_from n out
unfolding digits_from read_from
read_from-digits_from zero n out h = elim h [ ]
read_from-digits_from (suc fuel) n out h = elim (Bool-cases (ltb n 10)) [
  | inl small ↦ rw small (ap (λ k. read_from k out) (last n (ltb→lt n 10 small)))
  | inr big ↦ rw big (
      read_from-digits_from fuel (n / 10) _ (shorter n fuel h (ltb→ge n 10 big))
      ∙ ap (λ k. read_from k out) (more n))
]

-- Reading inverts writing, for every number.
pub read-decimal : (n : ℕ) → read (decimal n) ≡ n
unfolding read decimal
read-decimal n = read_from-digits_from (suc n) n "" (omega arith)

-- No digit has a code outside '0' to '9'.
digit-ne : (d sep : ℕ) → (sep < b'0') ⊎ (b'9' < sep) → code (digit d) ≢ sep
unfolding digit
digit-ne zero sep h = omega arith
digit-ne (suc zero) sep h = omega arith
digit-ne (suc (suc zero)) sep h = omega arith
digit-ne (suc (suc (suc zero))) sep h = omega arith
digit-ne (suc (suc (suc (suc zero)))) sep h = omega arith
digit-ne (suc (suc (suc (suc (suc zero))))) sep h = omega arith
digit-ne (suc (suc (suc (suc (suc (suc zero)))))) sep h = omega arith
digit-ne (suc (suc (suc (suc (suc (suc (suc zero))))))) sep h = omega arith
digit-ne (suc (suc (suc (suc (suc (suc (suc (suc zero)))))))) sep h = omega arith
digit-ne _ sep h = omega arith

digits_from-Lacks :
    (fuel n sep : ℕ) (out : String)
    → (sep < b'0') ⊎ (b'9' < sep)
    → Lacks sep out
    → Lacks sep (digits_from fuel n out)
unfolding digits_from
digits_from-Lacks zero n sep out h k = k
digits_from-Lacks (suc fuel) n sep out h k = elim (Bool-cases (ltb n 10)) [
  | inl small ↦ rw small (digit-ne (n % 10) sep h, k)
  | inr big ↦ rw big (digits_from-Lacks fuel (n / 10) sep _ h (digit-ne (n % 10) sep h, k))
]

decimal-Lacks : (n sep : ℕ) → (sep < b'0') ⊎ (b'9' < sep) → Lacks sep (decimal n)
unfolding decimal
decimal-Lacks n sep h = digits_from-Lacks (suc n) n sep "" h tt

-- The integer that a text in the form of %d stands for.
pub read_int : String → ℤ
read_int String.[] = pos 0
read_int (String.◌∷◌ c s) =
    if nat_eq (code c) b'-' then negsuc (read s - 1) else pos (read (String.◌∷◌ c s))

read_int_unsigned : (s : String) → Lacks b'-' s → read_int s ≡ pos (read s)
unfolding read_int read
read_int_unsigned String.[] h = refl
read_int_unsigned (String.◌∷◌ c s) (h, k) = ground arith

-- Reading inverts writing, for every integer.
pub read_int-format : (z : ℤ) → read_int (format z) ≡ z
unfolding format
read_int-format (pos n) =
    read_int_unsigned (decimal n) (decimal-Lacks n b'-' (inl (omega arith)))
    ∙ ap pos (read-decimal n)
read_int-format (negsuc n) =
    rw (cons-append, nil-append) (unfold read_int in rw read-decimal (ground arith))

pub format-Lacks_colon : (z : ℤ) → Lacks b':' (format z)
unfolding format
format-Lacks_colon (pos n) = decimal-Lacks n b':' (inr (omega arith))
format-Lacks_colon (negsuc n) =
    rw (cons-append, nil-append) ((omega arith), decimal-Lacks (suc n) b':' (inr (omega arith)))
