-- ===== src/Bridge/Mdns/Names.antt =====
-- Reading a name ends, stays in its buffer, and never goes past the packet.
use Prim.Native.Nat.{bit_and}
use nev_os.Base.{
  if◌then◌else◌, if_elim, leb, not, steady, if_else, if_then, subst, ◌≢◌, ℕ, zero, suc, ◌+◌, ◌-◌,
  ◌≤◌, ◌<◌, ◌≡◌, refl, sym, ap, ◌∙◌, ◌⊎◌, inl, inr, none, some, List, [], ◌∷◌, length, take, drop,
  get_or, arith, length-append, length-take, length-drop, ◌==◌,
}
use nev_os.Bridge.Mdns.{
  Turn, bad, strays, stop, goes, Name, unnamed, outside, endless, named, known, dotted, within,
  follow, append_label, turn, name_rounds, read_name,
}

-- A round that goes on: a pointer was followed, or the text has grown.
abbrev Onward : ℕ → ℕ → List ℕ → ℕ → List ℕ → Type 0
Onward size jumps text jumps' text' =
    ((jumps' ≡ suc jumps) × (jumps' ≤ 8) × (length text' ≡ length text))
    ⊎ ((jumps' ≡ jumps) × (length text < length text') × (length text' < size))

-- Where the name starts, and where it ends where that is known.
abbrev Placed : List ℕ → ℕ → ℕ → ℕ → Type 0
Placed pkt from here end = ((end ≡ 0) × (from ≤ here)) ⊎ ((from < end) × (end ≤ length pkt))

length-dotted : (text : List ℕ) → length text ≤ length (dotted text)
length-dotted [] = omega arith
length-dotted (c ∷ cs) = omega (arith, length-append cs (46 ∷ []))

module _ (pkt : List ℕ) (size here end jumps : ℕ) (text : List ℕ) where
  append_label-goes :
      (here' end' jumps' : ℕ) (text' : List ℕ)
      → append_label pkt size here end jumps text ≡ goes here' end' jumps' text'
      → 0 < get_or pkt here 0
      → Onward size jumps text jumps' text'
  append_label-goes here' end' jumps' text' e some_label =
      let label = get_or pkt here 0 in
      let l0 = length-append (dotted text) (take label (drop (here + 1) pkt)) in
      let l1 = length-take label (drop (here + 1) pkt) in
      let l2 = length-drop (here + 1) pkt in
      let l3 = length-dotted text in ground (arith, e, l0, l1, l2, l3, some_label)

  follow-goes :
      (here' end' jumps' : ℕ) (text' : List ℕ)
      → follow pkt here end jumps text ≡ goes here' end' jumps' text'
      → Onward size jumps text jumps' text'
  follow-goes here' end' jumps' text' e = ground (arith, e)

  turn-Onward :
      (here' end' jumps' : ℕ) (text' : List ℕ)
      → turn pkt size here end jumps text ≡ goes here' end' jumps' text'
      → Onward size jumps text jumps' text'
  unfolding turn
  turn-Onward here' end' jumps' text' =
      let label = get_or pkt here 0 in
      let M =
        λ (t : Turn). t ≡ goes here' end' jumps' text' → Onward size jumps text jumps' text' in
      if_elim M (leb (length pkt) here) bad _ (λ t e. absurd (ground (arith, e)))
        λ inside.
          if_elim M (not (within here 1 (length pkt))) strays _ (λ t e. absurd (ground (arith, e)))
            λ reads.
              if_elim M (bit_and label 0xC0 == 0xC0) (follow pkt here end jumps text) _
                (λ t e. follow-goes here' end' jumps' text' e)
                λ direct.
                  if_elim M (label == 0) (stop (if end == 0 then here + 1 else end)) _
                    (λ t e. absurd (ground (arith, e)))
                    λ nonzero.
                      if_elim M (not (bit_and label 0xC0 == 0)) bad
                        (append_label pkt size here end jumps text)
                        (λ t e. absurd (ground (arith, e)))
                        λ plain e.
                          append_label-goes here' end' jumps' text' e (ground (arith, nonzero))

  turn-goes :
      (here' end' jumps' : ℕ) (text' : List ℕ)
      → turn pkt size here end jumps text ≡ goes here' end' jumps' text'
      → Onward size jumps text jumps' text'
        × ((from : ℕ) → Placed pkt from here end → Placed pkt from here' end')
  unfolding turn
  turn-goes here' end' jumps' text' e =
      (turn-Onward here' end' jumps' text' e, λ from h. ground (arith, e, h))

  turn-stop :
      (past from : ℕ)
      → turn pkt size here end jumps text ≡ stop past
      → Placed pkt from here end
      → (from < past) × (past ≤ length pkt)
  unfolding turn
  turn-stop past from e h = ground (arith, e, h)

  turn-inside : turn pkt size here end jumps text ≡ strays → ⊥
  unfolding turn
  turn-inside e = ground (arith, e)

Turn-cases :
    (t : Turn)
    → (t ≡ bad)
      ⊎ (t ≡ strays)
      ⊎ ((past : ℕ) × (t ≡ stop past))
      ⊎ ((here : ℕ) × (end : ℕ) × (jumps : ℕ) × (text : List ℕ) × (t ≡ goes here end jumps text))
Turn-cases bad = inl refl
Turn-cases strays = inr (inl refl)
Turn-cases (stop past) = inr (inr (inl (past, refl)))
Turn-cases (goes here end jumps text) = inr (inr (inr (here, end, jumps, text, refl)))

-- The loop ended, and was inside the packet and the buffer.
abbrev Ended : Name → Type 0
Ended unnamed = Unit {0}
Ended outside = ⊥
Ended endless = ⊥
Ended (named past name) = Unit {0}

known-some :
    (r : Name) (past : ℕ) (name : List ℕ) → known r ≡ some (past, name) → r ≡ named past name
known-some unnamed past name e = absurd (ground (arith, e))
known-some outside past name e = absurd (ground (arith, e))
known-some endless past name e = absurd (ground (arith, e))
known-some (named p n) past name e = ground (arith, e)

module _ (pkt : List ℕ) (size : ℕ) where
  rounds_bounded :
      (fuel here end jumps : ℕ) (text : List ℕ) (from past : ℕ) (name : List ℕ)
      → name_rounds fuel pkt size here end jumps text ≡ named past name
      → length text < size
      → Placed pkt from here end
      → (from < past) × (past ≤ length pkt) × (length name < size)
  unfolding name_rounds
  rounds_bounded zero here end jumps text from past name e short h = absurd (ground (arith, e))
  rounds_bounded (suc fuel) here end jumps text from past name e short h =
      elim (Turn-cases (turn pkt size here end jumps text)) [
        | inl k ↦ absurd (ground (arith, e, k))
        | inr (inl k) ↦ absurd (ground (arith, e, k))
        | inr (inr (inl (q, k))) ↦
            let got = turn-stop pkt size here end jumps text q from k h in
            let is : q ≡ past = ground (arith, e, k) in
            let same : text ≡ name = ground (arith, e, k) in
            (omega (arith, got, is), omega (arith, got, is), omega (arith, short, ap length same))
        | inr (inr (inr (h', e', j', t', k))) ↦
            let got = turn-goes pkt size here end jumps text h' e' j' t' k in
            let next : name_rounds fuel pkt size h' e' j' t' ≡ named past name =
              ground (arith, e, k) in
            rounds_bounded fuel h' e' j' t' from past name next (omega (arith, got.0, short))
              (got.1 from h)
      ]

  rounds-fuel :
      (fuel here end jumps : ℕ) (text : List ℕ)
      → length text < size
      → jumps ≤ 8
      → size - length text + (8 - jumps) ≤ fuel
      → name_rounds (suc fuel) pkt size here end jumps text
        ≡ name_rounds fuel pkt size here end jumps text
  unfolding name_rounds
  rounds-fuel zero here end jumps text short few h = absurd (omega arith)
  rounds-fuel (suc fuel) here end jumps text short few h =
      elim (Turn-cases (turn pkt size here end jumps text)) [
        | inl k ↦ rw (name_rounds, k) refl
        | inr (inl k) ↦ rw (name_rounds, k) refl
        | inr (inr (inl (q, k))) ↦ rw (name_rounds, k) refl
        | inr (inr (inr (h', e', j', t', k))) ↦
            let got = (turn-goes pkt size here end jumps text h' e' j' t' k).0 in
            rw (name_rounds, k)
              (rounds-fuel fuel h' e' j' t' (omega (arith, got, short)) (omega (arith, got, few))
                (omega (arith, got, h, short, few)))
      ]

  rounds-Ended :
      (fuel here end jumps : ℕ) (text : List ℕ)
      → length text < size
      → jumps ≤ 8
      → size - length text + (8 - jumps) < fuel
      → Ended (name_rounds fuel pkt size here end jumps text)
  unfolding name_rounds
  rounds-Ended zero here end jumps text short few h = absurd (omega arith)
  rounds-Ended (suc fuel) here end jumps text short few h =
      elim (Turn-cases (turn pkt size here end jumps text)) [
        | inl k ↦ rw (name_rounds, k) tt
        | inr (inl k) ↦ absurd (turn-inside pkt size here end jumps text k)
        | inr (inr (inl (q, k))) ↦
            rw (name_rounds, k) (rw (if_then (within (length text) 1 size) _ _ (ground arith)) tt)
        | inr (inr (inr (h', e', j', t', k))) ↦
            let got = (turn-goes pkt size here end jumps text h' e' j' t' k).0 in
            rw (name_rounds, k)
              (rounds-Ended fuel h' e' j' t' (omega (arith, got, short)) (omega (arith, got, few))
                (omega (arith, got, h, short, few)))
      ]

  -- Whatever bytes a packet has and wherever reading a name starts, the loop ends within `size + 9` rounds,
  -- and no byte is read outside the packet or written outside the buffer. The name that is found fits the
  -- buffer with its terminator, and the offset past it lies after the name's start and inside the packet.
  -- Condition: the buffer has room for a terminator.
  pub read_name_safe :
      (from : ℕ)
      → 0 < size
      → ((extra : ℕ)
          → let r = name_rounds (size + 9 + extra) pkt size from 0 0 [] in
            (r ≢ endless) × (r ≢ outside) × (read_name pkt from size ≡ known r))
        × ((past : ℕ) (name : List ℕ)
            → read_name pkt from size ≡ some (past, name)
            → (from < past) × (past ≤ length pkt) × (length name < size))
  unfolding read_name
  read_name_safe from room =
      let some_room =
        if_else (size == 0) none (known (name_rounds (size + 9) pkt size from 0 0 []))
          (ground (arith, room)) in
      (
        λ extra. (
          λ e.
              subst Ended e
                (rounds-Ended (size + 9 + extra) from 0 0 [] room (omega arith) (omega arith)),
          λ e.
              subst Ended e
                (rounds-Ended (size + 9 + extra) from 0 0 [] room (omega arith) (omega arith)),
          some_room
              ∙ sym (
                  ap known (
                    steady (λ k. name_rounds k pkt size from 0 0 []) (size + 9) extra
                      (λ k h. rounds-fuel k from 0 0 [] room (omega arith) (omega (arith, h))))),
        ),
        λ past name e.
            rounds_bounded (size + 9) from 0 0 [] from past name
              (known-some (name_rounds (size + 9) pkt size from 0 0 []) past name
                (sym some_room ∙ e))
              room (inl (refl, omega arith)),
      )
