-- ===== src/Base/Bytes.antt =====
-- memcpy to an index of a buffer.
use Prim.Native.Nat.{◌<◌, ℕ, zero, suc, ◌+◌, ◌≤◌}
use mathlib.Core.Path.{◌≡◌, refl, sym, ap, ◌∙◌, subst}
use mathlib.Core.List.{List, [], ◌∷◌, ◌++◌, append_assoc, append-nil}
use native.Mathlib.Omega.{arith}
use nev_os.Base.Lists.{length, set, take, length-set, take-set_next}

unfoldable pub copy : List ℕ → ℕ → List ℕ → List ℕ
copy buf i [] = buf
copy buf i (b ∷ bs) = copy (set buf i b) (i + 1) bs

pub length-copy : (buf : List ℕ) (i : ℕ) (bytes : List ℕ) → length (copy buf i bytes) ≡ length buf
unfolding copy
length-copy buf i [] = refl
length-copy buf i (b ∷ bs) = length-copy (set buf i b) (i + 1) bs ∙ length-set buf i b

pub take-copy :
    (buf : List ℕ) (i : ℕ) (bytes : List ℕ)
    → i + length bytes ≤ length buf
    → take (i + length bytes) (copy buf i bytes) ≡ take i buf ++ bytes
unfolding copy
take-copy buf i [] h =
    let e : i ≡ i + 0 = omega arith in
    subst (λ n. take n buf ≡ take i buf ++ []) e (sym (append-nil (take i buf)))
take-copy buf i (b ∷ bs) h =
    let next : suc i ≡ i + 1 = omega arith in
    let far : i + 1 + length bs ≡ i + suc (length bs) = omega arith in
    let ih = take-copy (set buf i b) (i + 1) bs (omega (arith, length-set buf i b)) in
    let one =
      subst (λ n. take n (set buf i b) ≡ take i buf ++ b ∷ []) next
        (take-set_next i buf b (omega arith)) in
    subst (λ n. take n (copy (set buf i b) (i + 1) bs) ≡ take i buf ++ b ∷ bs) far
      (ih ∙ ap (λ t. t ++ bs) one ∙ append_assoc (take i buf) (b ∷ []) bs)

-- A C string in a buffer: the bytes before the first NUL.
abbrev pub c_string : List ℕ → List ℕ
c_string [] = []
c_string (zero ∷ xs) = []
c_string (suc x ∷ xs) = suc x ∷ c_string xs

abbrev pub IsByte : ℕ → Type 0
IsByte b = b < 256
