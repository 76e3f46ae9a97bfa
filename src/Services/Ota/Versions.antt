-- ===== src/Services/Ota/Versions.antt =====
-- nev_ota_version_compare of components/nev_services/src/ota_core.c.
use nev_os.Base.{
  ℕ, zero, suc, ◌+◌, ◌-◌, ◌*◌, ◌%◌, ◌≤◌, ◌<◌, ◌≡◌, refl, sym, ap, ◌∙◌, Bool, true, false, not, ◌&&◌,
  ◌||◌, List, [], ◌∷◌, Option, none, some, ltb, leb, ◌==◌, if◌then◌else◌, ◌⊎◌, inl, inr, length,
  arith, u32_mod,
}

-- -1, 0 and 1
pub data Sign : Type 0 where
  less equal greater : Sign

abbrev pub newer : Sign → Bool
newer greater = true
newer equal = false
newer less = false

abbrev pub is_digit : ℕ → Bool
is_digit ch = leb 48 ch && leb ch 57

-- The loop over one run of digits: the number, whether there was a digit, and what is left.
unfoldable pub digits : ℕ → Bool → List ℕ → ℕ × Bool × List ℕ
digits n seen [] = (n, seen, [])
digits n seen (ch ∷ s) =
    let rest = digits ((n * 10 + (ch - 48)) % u32_mod) true s in
    if is_digit ch then rest else (n, seen, ch ∷ s)

-- One separator, and whether the number was followed by anything else.
unfoldable pub separator : List ℕ → List ℕ × Bool
separator [] = ([], true)
separator (ch ∷ s) = if ch == 46 then (s, true) else (ch ∷ s, false)

abbrev pub at_end : List ℕ → List ℕ → Bool
at_end [] [] = true
at_end [] (y ∷ ys) = false
at_end (x ∷ xs) ys = false

-- What one round of the loop decides: a result, or the strings for the next round.
unfoldable pub round : List ℕ → List ℕ → Sign ⊎ (List ℕ × List ℕ)
round a b =
    let (na, digits_a, a') = digits 0 false a in
    let (nb, digits_b, b') = digits 0 false b in
    if not (na == nb)
    then inl (if ltb na nb then less else greater)
    else if not digits_a && not digits_b
    then inl equal
    else let (a'', ends_a) = separator a' in
      let (b'', ends_b) = separator b' in
      if not ends_a || not ends_b
      then inl equal
      else if at_end a'' b''
      then inl equal
      else inr (a'', b'')

unfoldable pub rounds : ℕ → List ℕ → List ℕ → Option Sign
rounds zero a b = none
rounds (suc fuel) a b = elim (round a b) [ inl sign ↦ some sign | inr (a', b') ↦ rounds fuel a' b' ]

length-digits : (n : ℕ) (seen : Bool) (s : List ℕ) → length (digits n seen s).2 ≤ length s
unfolding digits
length-digits n seen [] = omega arith
length-digits n seen (ch ∷ s) =
    ground (arith, length-digits ((n * 10 + (ch - 48)) % u32_mod) true s)

-- A run that has a digit is shorter behind it.
digits-seen :
    (n : ℕ) (s : List ℕ) → (digits n false s).1 ≡ true → length (digits n false s).2 < length s
unfolding digits
digits-seen n [] e = absurd (ground (arith, e))
digits-seen n (ch ∷ s) e = ground (arith, e, length-digits ((n * 10 + (ch - 48)) % u32_mod) true s)

length-separator : (s : List ℕ) → length (separator s).0 ≤ length s
unfolding separator
length-separator [] = omega arith
length-separator (ch ∷ s) = ground arith

round-shorter :
    (a b a' b' : List ℕ) → round a b ≡ inr (a', b') → length a' + length b' < length a + length b
unfolding round
round-shorter a b a' b' e = ground (
  arith,
  e,
  length-digits 0 false a,
  length-digits 0 false b,
  digits-seen 0 a,
  digits-seen 0 b,
  length-separator (digits 0 false a).2,
  length-separator (digits 0 false b).2,
)

rounds-next :
    (fuel : ℕ) (a b : List ℕ) (d : Sign ⊎ (List ℕ × List ℕ))
    → round a b ≡ d
    → ((a' b' : List ℕ) → d ≡ inr (a', b') → (sign : Sign) × (rounds fuel a' b' ≡ some sign))
    → (sign : Sign) × (rounds (suc fuel) a b ≡ some sign)
unfolding rounds
rounds-next fuel a b (inl sign) e ih = (sign, rw (rounds, e) refl)
rounds-next fuel a b (inr (a', b')) e ih =
    let rest = ih a' b' refl in (rest.0, rw (rounds, e) rest.1)

pub rounds-total :
    (fuel : ℕ) (a b : List ℕ)
    → length a + length b < fuel
    → (sign : Sign) × (rounds fuel a b ≡ some sign)
rounds-total zero a b h = absurd (omega arith)
rounds-total (suc fuel) a b h =
    rounds-next fuel a b (round a b) refl
      λ a' b' e. rounds-total fuel a' b' (omega (arith, round-shorter a b a' b' e))

abbrev pub answer : Option Sign → Sign
answer none = equal
answer (some sign) = sign

-- Every round that goes on takes a character, so the fuel is enough (rounds-total).
unfoldable pub version_compare : List ℕ → List ℕ → Sign
version_compare a b = answer (rounds (suc (length a + length b)) a b)

abbrev pub opposite : Sign → Sign
opposite less = greater
opposite equal = equal
opposite greater = less

abbrev swapped : Sign ⊎ (List ℕ × List ℕ) → Sign ⊎ (List ℕ × List ℕ)
swapped (inl sign) = inl (opposite sign)
swapped (inr (a, b)) = inr (b, a)

at_end-swap : (a b : List ℕ) → at_end b a ≡ at_end a b
at_end-swap [] [] = refl
at_end-swap [] (y ∷ b) = refl
at_end-swap (x ∷ a) [] = refl
at_end-swap (x ∷ a) (y ∷ b) = refl

round-swap : (a b : List ℕ) → round b a ≡ swapped (round a b)
unfolding round
round-swap a b =
    ground
      (arith, at_end-swap (separator (digits 0 false a).2).0 (separator (digits 0 false b).2).0)

abbrev turned : Option Sign → Option Sign
turned none = none
turned (some sign) = some (opposite sign)

after_round : ℕ → Sign ⊎ (List ℕ × List ℕ) → Option Sign
after_round fuel (inl sign) = some sign
after_round fuel (inr (a, b)) = rounds fuel a b

rounds-suc : (fuel : ℕ) (a b : List ℕ) → rounds (suc fuel) a b ≡ after_round fuel (round a b)
unfolding rounds after_round
rounds-suc fuel a b = by_round (round a b)
  where
    by_round :
        (d : Sign ⊎ (List ℕ × List ℕ))
        → elim d as (λ x. Option Sign) [ inl sign ↦ some sign | inr (a', b') ↦ rounds fuel a' b' ]
          ≡ after_round fuel d
    by_round (inl sign) = refl
    by_round (inr (a', b')) = refl

after-swap :
    (fuel : ℕ) (d : Sign ⊎ (List ℕ × List ℕ))
    → ((a b : List ℕ) → rounds fuel b a ≡ turned (rounds fuel a b))
    → after_round fuel (swapped d) ≡ turned (after_round fuel d)
unfolding after_round
after-swap fuel (inl sign) ih = refl
after-swap fuel (inr (a, b)) ih = ih a b

rounds-swap : (fuel : ℕ) (a b : List ℕ) → rounds fuel b a ≡ turned (rounds fuel a b)
unfolding rounds
rounds-swap zero a b = refl
rounds-swap (suc fuel) a b =
    rounds-suc fuel b a
    ∙ ap (after_round fuel) (round-swap a b)
    ∙ after-swap fuel (round a b) (λ a' b'. rounds-swap fuel a' b')
    ∙ sym (ap turned (rounds-suc fuel a b))

by_answer : (o : Option Sign) → answer (turned o) ≡ opposite (answer o)
by_answer none = refl
by_answer (some sign) = refl

-- Comparing two versions the other way round gives the opposite answer, so of two versions at most
-- one is newer than the other.
pub version_compare-swap : (a b : List ℕ) → version_compare b a ≡ opposite (version_compare a b)
unfolding version_compare
version_compare-swap a b =
    let fuel : suc (length b + length a) ≡ suc (length a + length b) = omega arith in
    ap (λ n. answer (rounds n b a)) fuel
    ∙ ap answer (rounds-swap (suc (length a + length b)) a b)
    ∙ by_answer (rounds (suc (length a + length b)) a b)
