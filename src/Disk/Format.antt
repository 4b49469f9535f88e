-- ===== src/Disk/Format.antt =====
-- fmt.Sprintf's numbers: %d, and %0wx, the lower-case hexadecimal padded with zeroes.
use virtlet.Prelude.{
  ℕ, zero, suc, ◌+◌, ◌-◌, ◌/◌, ◌%◌, Str, [], ◌∷◌, ◌++◌, ltb, ◌==◌, if◌then◌else◌, length,
}

digit : ℕ → ℕ
digit d = if ltb d 10 then 48 + d else 87 + d

-- The digits of `n` in base `b`, most significant first; `n` has at most `n + 1` digits.
digits_from : ℕ → ℕ → ℕ → Str → Str
digits_from zero b n acc = acc
digits_from (suc rounds) b n acc =
    let more = digits_from rounds b (n / b) (digit (n % b) ∷ acc) in
    if n / b == 0 then digit (n % b) ∷ acc else more

zeroes : ℕ → Str
zeroes zero = []
zeroes (suc n) = 48 ∷ zeroes n

-- %d
unfoldable pub decimal : ℕ → Str
unfolding digits_from digit
decimal n = digits_from (suc n) 10 n []

-- %0wx
unfoldable pub hex : ℕ → ℕ → Str
unfolding digits_from digit zeroes
hex w n = let s = digits_from (suc n) 16 n [] in zeroes (w - length s) ++ s
