-- ===== src/Common/Text.antt =====
-- Go strings and byte slices: both are lists of bytes.
use Prim.Native.Nat.{ℕ, ◌<◌}
use Prim.Native.Char.{code}
use Prim.Native.String.{String}
use mathlib.Core.Path.{◌≡◌, refl, ap, ◌∙◌}
use mathlib.Core.Logic.{◌≢◌}
use mathlib.Core.Bool.{Bool, true, false, ◌&&◌}
use mathlib.Core.List.{List, [], ◌∷◌, ◌++◌}
use native.Mathlib.Omega.{arith}
use merged_mining_pool.Common.Tests.{◌==◌, if◌then◌else◌}

-- A byte slice, or a string as Go indexes it.
abbrev pub Bytes : Type 0
Bytes = List ℕ

abbrev pub IsByte : ℕ → Type 0
IsByte b = b < 256

-- The bytes of an ASCII literal.
abbrev pub codes : String → Bytes
codes String.[] = []
codes (String.◌∷◌ c s) = code c ∷ codes s

-- `==` on strings, and `bytes.Equal`.
abbrev pub bytes_eq : Bytes → Bytes → Bool
bytes_eq [] [] = true
bytes_eq (a ∷ s) (b ∷ t) = a == b && bytes_eq s t
bytes_eq _ _ = false

pub bytes_eq_refl : (s : Bytes) → bytes_eq s s ≡ true
bytes_eq_refl [] = refl
bytes_eq_refl (a ∷ s) = ground (arith, bytes_eq_refl s)

pub eq_of_bytes_eq : (s t : Bytes) → bytes_eq s t ≡ true → s ≡ t
eq_of_bytes_eq [] [] h = refl
eq_of_bytes_eq [] (b ∷ t) h = cc
eq_of_bytes_eq (a ∷ s) [] h = cc
eq_of_bytes_eq (a ∷ s) (b ∷ t) h = ground (arith, eq_of_bytes_eq s t)

abbrev cons_first : ℕ → List Bytes → List Bytes
cons_first x [] = (x ∷ []) ∷ []
cons_first x (part ∷ parts) = (x ∷ part) ∷ parts

-- `strings.Split` at a separator of one byte.
abbrev pub split : Bytes → ℕ → List Bytes
split [] sep = [] ∷ []
split (x ∷ s) sep = let rest = split s sep in if x == sep then [] ∷ rest else cons_first x rest

-- `strings.Join` with a separator of one byte.
abbrev pub join_by : ℕ → List Bytes → Bytes
join_by sep [] = []
join_by sep (part ∷ []) = part
join_by sep (part ∷ next ∷ parts) = part ++ sep ∷ join_by sep (next ∷ parts)

abbrev pub AllNe : ℕ → Bytes → Type 0
AllNe sep [] = Unit
AllNe sep (x ∷ s) = (x ≢ sep) × AllNe sep s

pub split-part : (sep : ℕ) (part : Bytes) → AllNe sep part → split part sep ≡ part ∷ []
split-part sep [] h = refl
split-part sep (x ∷ part) (h, hs) = ground (arith, split-part sep part hs)

split-sep :
    (sep : ℕ) (part rest : Bytes)
    → AllNe sep part
    → split (part ++ sep ∷ rest) sep ≡ part ∷ split rest sep
split-sep sep [] rest h = ground arith
split-sep sep (x ∷ part) rest (h, hs) = ground (arith, split-sep sep part rest hs)

abbrev pub AllParts : ℕ → List Bytes → Type 0
AllParts sep [] = Unit
AllParts sep (part ∷ parts) = AllNe sep part × AllParts sep parts

-- Splitting undoes joining, if no part holds the separator and there is a part.
pub split-join_by :
    (sep : ℕ) (part : Bytes) (parts : List Bytes)
    → AllParts sep (part ∷ parts)
    → split (join_by sep (part ∷ parts)) sep ≡ part ∷ parts
split-join_by sep part [] (h, _) = split-part sep part h
split-join_by sep part (next ∷ parts) (h, hs) =
    split-sep sep part (join_by sep (next ∷ parts)) h
    ∙ ap (λ r. part ∷ r) (split-join_by sep next parts hs)
