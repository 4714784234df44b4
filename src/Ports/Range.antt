-- ===== src/Ports/Range.antt =====
-- Which values of CMGR_PORTS are accepted.
use cmgr.Common.{
  ℕ, ◌≤◌, ◌<◌, ◌≡◌, refl, ap, ◌∙◌, true, false, not, ◌==◌, [], ◌∷◌, ◌++◌, arith, ok, all, Text, ℤ,
  pos, decimal, all-decimal, is_digit, parse_int-decimal, split_byte, split_byte_single,
  split_byte-append, is_empty,
}
use cmgr.Ports.{read_range, check_range, get_port_range}

-- An accepted range is two numbers of unprivileged ports, in order.
abbrev pub IsRange : ℤ → ℤ → Type 0
IsRange low high = (a b : ℕ) × (low ≡ pos a) × (high ≡ pos b) × (1024 ≤ a) × (a ≤ b) × (b < 65536)

no_dash : (s : Text) → all is_digit s ≡ true → all (λ c. not (c == 45)) s ≡ true
no_dash [] h = refl
no_dash (c ∷ s) h = ground (arith, no_dash s)

split-decimals :
    (a b : ℕ) → split_byte 45 (decimal a ++ 45 ∷ decimal b) ≡ decimal a ∷ decimal b ∷ []
split-decimals a b =
    split_byte-append 45 (decimal a) (decimal b) (no_dash (decimal a) (all-decimal a))
    ∙ ap (λ r. decimal a ∷ r)
        (split_byte_single 45 (decimal b) (no_dash (decimal b) (all-decimal b)))

is_empty-middle : (s t : Text) (c : ℕ) → is_empty (s ++ c ∷ t) ≡ false
is_empty-middle [] t c = refl
is_empty-middle (x ∷ s) t c = refl

read_range-decimals :
    (a b : ℕ)
    → 1024 ≤ a
    → a ≤ b
    → b < 65536
    → read_range (decimal a) (decimal b) ≡ ok (pos a, pos b)
unfolding read_range check_range
read_range-decimals a b x y z = ground (arith, parse_int-decimal a, parse_int-decimal b)

-- Every range of unprivileged ports is accepted when it is written in decimal.
pub get_port_range-decimal :
    (a b : ℕ)
    → 1024 ≤ a
    → a ≤ b
    → b < 65536
    → get_port_range (decimal a ++ 45 ∷ decimal b) ≡ ok (pos a, pos b)
unfolding get_port_range
get_port_range-decimal a b x y z =
    rw (is_empty-middle (decimal a) (decimal b) 45)
      (rw (split-decimals a b) (read_range-decimals a b x y z))
