-- ===== src/Base/Fuel.antt =====
-- Recursion on fuel.
use Prim.Native.Nat.{ℕ, zero, suc, ◌+◌, ◌≤◌}
use mathlib.Core.Path.{◌≡◌, ap, ◌∙◌}
use native.Mathlib.Omega.{arith}

-- Where one more round changes nothing from `n` on, any number of rounds past `n` changes nothing.
pub steady {ℓ} :
    {A : Type ℓ} (f : ℕ → A) (n extra : ℕ)
    → ((k : ℕ) → n ≤ k → f (suc k) ≡ f k)
    → f (n + extra) ≡ f n
steady f n zero h = let e : n + 0 ≡ n = omega arith in ap f e
steady f n (suc extra) h =
    let e : n + suc extra ≡ suc (n + extra) = omega arith in
    ap f e ∙ h (n + extra) (omega arith) ∙ steady f n extra h
