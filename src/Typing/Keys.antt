-- ===== src/Typing/Keys.antt =====
-- The keys of `expiryTimers` in frontend/src/stores/typingStore.ts.
use Prim.Native.Char.{Char}
use Prim.Native.String.{String, [], ◌∷◌}
use Prim.Native.String.{◌++◌ as join}
use text.Mathlib.TextLemmas.{nil-append, cons-append, cons-eq-cons, append_cancel_left}
use bu3li_comms.Prelude.{◌≡◌, refl, sym, ap, ap₂, ◌∙◌, ◌≢◌}
use bu3li_comms.Typing.{timer_key}

-- The text holds no colon.
abbrev pub NoColon : String → Type 0
NoColon [] = Unit
NoColon (c ∷ s) = (c ∷ [] ≢ ":") × NoColon s

abbrev colon : Char
colon = ":"

clash : (d : Char) (c u r : String) → d ∷ [] ≢ ":" → join [] (join ":" u) ≡ join (d ∷ c) r → ⊥
clash d c u r k e = k (sym (ap (λ (x : Char). x ∷ []) (cons-eq-cons.0 same).0))
  where
    same : colon ∷ join [] u ≡ d ∷ join c r
    same = sym (cons-append colon [] u) ∙ sym (nil-append _) ∙ e ∙ cons-append d c r

-- Conversation ids that hold no colon give every pair a key of its own.
pub timer_key_injective :
    (c c' u u' : String)
    → NoColon c
    → NoColon c'
    → timer_key c u ≡ timer_key c' u'
    → (c ≡ c') × (u ≡ u')
unfolding timer_key
timer_key_injective [] [] u u' n n' e =
    (refl, append_cancel_left ":" u u' (sym (nil-append _) ∙ e ∙ nil-append _))
timer_key_injective [] (d ∷ c') u u' n (k, n') e = absurd (clash d c' u _ k e)
timer_key_injective (d ∷ c) [] u u' (k, n) n' e = absurd (clash d c u' _ k (sym e))
timer_key_injective (d ∷ c) (d' ∷ c') u u' (k, n) (k', n') e =
    let split = cons-eq-cons.0 (sym (cons-append d c _) ∙ e ∙ cons-append d' c' _) in
    let rest = timer_key_injective c c' u u' n n' split.1 in
    (ap₂ (λ (x : Char) (s : String). x ∷ s) split.0 rest.0, rest.1)
