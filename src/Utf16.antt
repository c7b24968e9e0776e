-- ===== src/Utf16.antt =====
-- How JavaScript compares texts with `<`: by their UTF-16 code units, which
-- frontend/src/calls/callManager.ts relies on to choose who sends an offer.
use Prim.Native.Char.{Char, code, char, IsScalar}
use text.Mathlib.TextEquality.{Char-path}
use bu3li_comms.Prelude.{
  ℕ, ◌+◌, ◌-◌, ◌/◌, ◌%◌, ◌<◌, ltb, eqb, if◌then◌else◌, String, Bool, true, false, not, ◌≡◌, refl,
  ap₂, ◌≢◌, ◌⊎◌, List, [], ◌∷◌, ◌++◌, arith, ℕ_discrete,
}

abbrev units_of : ℕ → List ℕ
units_of c =
    if ltb c 0x10000
    then c ∷ []
    else (0xd800 + (c - 0x10000) / 0x400) ∷ (0xdc00 + (c - 0x10000) % 0x400) ∷ []

unfoldable pub units : String → List ℕ
units String.[] = []
units (String.◌∷◌ c s) = units_of (code c) ++ units s

unfoldable pub lex_lt : List ℕ → List ℕ → Bool
lex_lt [] [] = false
lex_lt [] (y ∷ ys) = true
lex_lt (x ∷ xs) [] = false
lex_lt (x ∷ xs) (y ∷ ys) = if ltb x y then true else if eqb x y then lex_lt xs ys else false

-- `s < t`
unfoldable pub str_lt : String → String → Bool
unfolding units lex_lt
str_lt s t = lex_lt (units s) (units t)

scalar_range : (n : ℕ) → IsScalar n → (n < 0xd800) ⊎ ((0xdfff < n) × (n < 0x110000))
scalar_range n h = ground arith

units_of-injective :
    (c d : ℕ) (xs ys : List ℕ)
    → IsScalar c
    → IsScalar d
    → units_of c ++ xs ≡ units_of d ++ ys
    → (c ≡ d) × (xs ≡ ys)
units_of-injective c d xs ys h k e = ground (arith, scalar_range c h, scalar_range d k)

is_scalar : (c : Char) → IsScalar (code c)
is_scalar (char n h) = h

units-injective : (s t : String) → units s ≡ units t → s ≡ t
unfolding units
units-injective String.[] String.[] e = refl
units-injective String.[] (String.◌∷◌ d t) e = absurd (ground arith)
units-injective (String.◌∷◌ c s) String.[] e = absurd (ground arith)
units-injective (String.◌∷◌ c s) (String.◌∷◌ d t) e =
    let (h, r) =
      units_of-injective (code c) (code d) (units s) (units t) (is_scalar c) (is_scalar d) e in
    ap₂ (λ (x : Char) (y : String). String.◌∷◌ x y) (Char-path c d h) (units-injective s t r)

lex_lt-total : (xs ys : List ℕ) → xs ≢ ys → lex_lt xs ys ≡ not (lex_lt ys xs)
unfolding lex_lt
lex_lt-total [] [] n = absurd (n refl)
lex_lt-total [] (y ∷ ys) n = refl
lex_lt-total (x ∷ xs) [] n = refl
lex_lt-total (x ∷ xs) (y ∷ ys) n = elim (ℕ_discrete x y) [
  | yes p ↦ ground (arith, lex_lt-total xs ys (λ e. n (ap₂ ◌∷◌ p e)))
  | no q ↦ ground arith
]

-- Of two different texts exactly one is the smaller.
pub str_lt-total : (s t : String) → s ≢ t → str_lt s t ≡ not (str_lt t s)
unfolding str_lt
str_lt-total s t n = lex_lt-total (units s) (units t) (λ e. n (units-injective s t e))

lex_lt_irrefl : (xs : List ℕ) → lex_lt xs xs ≡ false
unfolding lex_lt
lex_lt_irrefl [] = refl
lex_lt_irrefl (x ∷ xs) = ground (arith, lex_lt_irrefl xs)

pub str_lt_irrefl : (s : String) → str_lt s s ≡ false
unfolding str_lt
str_lt_irrefl s = lex_lt_irrefl (units s)

lex_lt_trans : (xs ys zs : List ℕ) → lex_lt xs ys ≡ true → lex_lt ys zs ≡ true → lex_lt xs zs ≡ true
unfolding lex_lt
lex_lt_trans [] [] zs h k = absurd (ground arith)
lex_lt_trans (x ∷ xs) [] zs h k = absurd (ground arith)
lex_lt_trans xs (y ∷ ys) [] h k = absurd (ground arith)
lex_lt_trans [] (y ∷ ys) (z ∷ zs) h k = refl
lex_lt_trans (x ∷ xs) (y ∷ ys) (z ∷ zs) h k = ground (arith, lex_lt_trans xs ys zs)

pub str_lt_trans : (r s t : String) → str_lt r s ≡ true → str_lt s t ≡ true → str_lt r t ≡ true
unfolding str_lt
str_lt_trans r s t = lex_lt_trans (units r) (units s) (units t)
