-- ===== src/Timeline/Lossless.antt =====
-- The nodes of frontend/src/components/messages/MessageContent.tsx, read back.
use bu3li_comms.Prelude.{
  ℕ, zero, suc, ◌+◌, ◌≤◌, eqb, Bool, ◌≡◌, refl, ap, ap₂, sym, subst, ◌∙◌, Option, none, some, List,
  [], ◌∷◌, ◌++◌, length, length-append, arith, Bool-cases, Option-cases, List-cases, inl, inr, ◌⊎◌,
}
use bu3li_comms.Timeline.Content.{
  Node, text, code, bold, italic, link, mention, span, after, match_between, or_else, on_match,
  match_token, flush, nodes_of, render_content, backquote, asterisk, at_sign, https, http, is_code,
  is_emphasised, is_link, is_word,
}

-- The text that a node stands for.
abbrev pub source : Node → List ℕ
source (text cs) = cs
source (code cs) = backquote ∷ cs ++ backquote ∷ []
source (bold cs) = asterisk ∷ asterisk ∷ cs ++ asterisk ∷ asterisk ∷ []
source (italic cs) = asterisk ∷ cs ++ asterisk ∷ []
source (link cs) = cs
source (mention is_known cs) = at_sign ∷ cs

abbrev pub sources : List Node → List ℕ
sources [] = []
sources (n ∷ ns) = source n ++ sources ns

append_assoc : (xs ys zs : List ℕ) → (xs ++ ys) ++ zs ≡ xs ++ (ys ++ zs)
append_assoc [] ys zs = refl
append_assoc (x ∷ xs) ys zs = ap (λ us. x ∷ us) (append_assoc xs ys zs)

append_nil : (xs : List ℕ) → xs ++ [] ≡ xs
append_nil [] = refl
append_nil (x ∷ xs) = ap (λ us. x ∷ us) (append_nil xs)

span-append : (p : ℕ → Bool) (cs : List ℕ) → (span p cs).0 ++ (span p cs).1 ≡ cs
unfolding span
span-append p [] = refl
span-append p (c ∷ cs) = elim (Bool-cases (p c)) [
  | inl e ↦ rw (e) (ap (λ us. c ∷ us) (span-append p cs))
  | inr e ↦ rw (e) refl
]

after-append : (ps cs rest : List ℕ) → after ps cs ≡ some rest → cs ≡ ps ++ rest
unfolding after
after-append [] cs rest e = ground arith
after-append (p ∷ ps) [] rest e = absurd (ground arith)
after-append (p ∷ ps) (c ∷ cs) rest e = elim (Bool-cases (eqb p c)) [
  | inl k ↦
      let same : c ≡ p = ground (arith, k) in
      let h = after-append ps cs rest (ground (arith, k, e)) in ground (arith, same, h)
  | inr k ↦ absurd (ground (arith, k, e))
]

-- A match is the opening, the run and the closing.
match_between-append :
    (opening closing : List ℕ) (p : ℕ → Bool) (cs run rest : List ℕ)
    → match_between opening closing p cs ≡ some (run, rest)
    → (cs ≡ opening ++ (run ++ (closing ++ rest))) × (1 ≤ length run)
unfolding match_between
match_between-append opening closing p cs run rest e = elim (Option-cases (after opening cs)) [
  | inl n ↦ absurd (ground arith)
  | inr (inner, i) ↦ elim (List-cases (span p inner).0) [
    | inl n ↦ absurd (ground arith)
    | inr (c, cs', k) ↦ elim (Option-cases (after closing (span p inner).1)) [
      | inl n ↦ absurd (ground arith)
      | inr (rest', r) ↦
          let h = span-append p inner in
          let a = after-append opening cs inner i in
          let b = after-append closing (span p inner).1 rest' r in
          let same_run : c ∷ cs' ≡ run = ground arith in
          let same_rest : rest' ≡ rest = ground arith in
          (
            a
                ∙ ap (λ us. opening ++ us)
                    (sym h ∙ ap₂ ◌++◌ (k ∙ same_run) (b ∙ ap (λ us. closing ++ us) same_rest)),
            subst (λ us. 1 ≤ length us) same_run (omega arith),
          )
    ]
  ]
]

-- A token is taken off the front of a text.
abbrev Takes : List ℕ → Node → List ℕ → Type 0
Takes cs n rest = (cs ≡ source n ++ rest) × (1 ≤ length (source n))

or_else-cases :
    {A : Type 0} (o p : Option A) (a : A) → or_else o p ≡ some a → (o ≡ some a) ⊎ (p ≡ some a)
or_else-cases none p a e = inr e
or_else-cases (some b) p a e = inl e

on_match-cases :
    (f : List ℕ → Node) (o : Option (List ℕ × List ℕ)) (n : Node) (rest : List ℕ)
    → on_match f o ≡ some (n, rest)
    → (run : List ℕ) × (o ≡ some (run, rest)) × (f run ≡ n)
on_match-cases f none n rest e = absurd (ground arith)
on_match-cases f (some (run, left)) n rest e = (run, ground arith, ground arith)

-- A kind of token whose source is its opening, run and closing.
between-Takes :
    (f : List ℕ → Node) (opening closing : List ℕ) (p : ℕ → Bool) (cs : List ℕ) (n : Node)
    (rest : List ℕ)
    → ((run : List ℕ) → source (f run) ≡ opening ++ (run ++ closing))
    → on_match f (match_between opening closing p cs) ≡ some (n, rest)
    → Takes cs n rest
between-Takes f opening closing p cs n rest w e =
    let (run, m, same) = on_match-cases f (match_between opening closing p cs) n rest e in
    let (h, l) = match_between-append opening closing p cs run rest m in
    let shape : source n ≡ opening ++ (run ++ closing) =
      subst (λ x. source x ≡ opening ++ (run ++ closing)) same (w run) in
    (
      h
          ∙ sym (
              ap (λ us. us ++ rest) shape
              ∙ append_assoc opening (run ++ closing) rest
              ∙ ap (λ us. opening ++ us) (append_assoc run closing rest)),
      rw (shape)
          (omega (arith, length-append opening (run ++ closing), length-append run closing, l)),
    )

match_token-Takes :
    (is_known : List ℕ → Bool) (cs : List ℕ) (n : Node) (rest : List ℕ)
    → match_token is_known cs ≡ some (n, rest)
    → Takes cs n rest
unfolding match_token
match_token-Takes is_known cs n rest e = elim (or_else-cases _ _ (n, rest) e) [
  | inl h ↦ between-Takes code (backquote ∷ []) (backquote ∷ []) is_code cs n rest (λ run. refl) h
  | inr e2 ↦ elim (or_else-cases _ _ (n, rest) e2) [
    | inl h ↦
        between-Takes bold (asterisk ∷ asterisk ∷ []) (asterisk ∷ asterisk ∷ []) is_emphasised cs n
          rest (λ run. refl) h
    | inr e3 ↦ elim (or_else-cases _ _ (n, rest) e3) [
      | inl h ↦
          between-Takes italic (asterisk ∷ []) (asterisk ∷ []) is_emphasised cs n rest (λ run. refl)
            h
      | inr e4 ↦ elim (or_else-cases _ _ (n, rest) e4) [
        | inl h ↦
            between-Takes (λ run. link (https ++ run)) https [] is_link cs n rest
              (λ run. ap (λ us. https ++ us) (sym (append_nil run))) h
        | inr e5 ↦ elim (or_else-cases _ _ (n, rest) e5) [
          | inl h ↦
              between-Takes (λ run. link (http ++ run)) http [] is_link cs n rest
                (λ run. ap (λ us. http ++ us) (sym (append_nil run))) h
          | inr h ↦
              between-Takes (λ run. mention (is_known run) run) (at_sign ∷ []) [] is_word cs n rest
                (λ run. ap (λ us. at_sign ∷ us) (sym (append_nil run))) h
        ]
      ]
    ]
  ]
]

sources-flush :
    (plain : List ℕ) (ns : List Node) → sources (flush plain ++ ns) ≡ plain ++ sources ns
sources-flush [] ns = refl
sources-flush (c ∷ cs) ns = refl

flush-sources : (plain : List ℕ) → sources (flush plain) ≡ plain ++ []
flush-sources [] = refl
flush-sources (c ∷ cs) = refl

-- Enough fuel reads the text to its end.
nodes_of-sources :
    (is_known : List ℕ → Bool) (fuel : ℕ) (plain cs : List ℕ)
    → length cs ≤ fuel
    → sources (nodes_of is_known fuel plain cs) ≡ plain ++ cs
unfolding nodes_of
nodes_of-sources is_known fuel plain [] h = flush-sources plain
nodes_of-sources is_known zero plain (c ∷ cs) h = absurd (omega arith)
nodes_of-sources is_known (suc fuel) plain (c ∷ cs) h =
    elim (Option-cases (match_token is_known (c ∷ cs))) [
      | inl e ↦
          rw (e, nodes_of)
            (nodes_of-sources is_known fuel (plain ++ c ∷ []) cs (omega arith)
              ∙ append_assoc plain (c ∷ []) cs)
      | inr (found, e) ↦
          let (whole, some_unit) = match_token-Takes is_known (c ∷ cs) found.0 found.1 e in
          let shorter : length found.1 ≤ fuel =
            omega (arith, h, some_unit, ap length whole, length-append (source found.0) found.1) in
          rw (e, nodes_of)
            (sources-flush plain (found.0 ∷ nodes_of is_known fuel [] found.1)
              ∙ ap (λ us. plain ++ (source found.0 ++ us))
                  (nodes_of-sources is_known fuel [] found.1 shorter)
              ∙ ap (λ us. plain ++ us) (sym whole))
    ]

-- The text of a message's nodes, each with the marks that it was written with, is the message: nothing of it
-- is lost or changed, and the loop reads it to its end.
pub sources-render_content :
    (is_known : List ℕ → Bool) (content : List ℕ)
    → sources (render_content is_known content) ≡ content
unfolding render_content
sources-render_content is_known content =
    nodes_of-sources is_known (length content) [] content (omega arith)

same_nodes :
    (is_known : List ℕ → Bool) (f g : ℕ) (plain cs : List ℕ)
    → length cs ≤ f
    → length cs ≤ g
    → nodes_of is_known f plain cs ≡ nodes_of is_known g plain cs
unfolding nodes_of
same_nodes is_known f g plain [] h k = refl
same_nodes is_known zero g plain (c ∷ cs) h k = absurd (omega arith)
same_nodes is_known (suc f) zero plain (c ∷ cs) h k = absurd (omega arith)
same_nodes is_known (suc f) (suc g) plain (c ∷ cs) h k =
    elim (Option-cases (match_token is_known (c ∷ cs))) [
      | inl e ↦
          rw (e, nodes_of)
            (same_nodes is_known f g (plain ++ c ∷ []) cs (omega arith) (omega arith))
      | inr (found, e) ↦
          let (whole, some_unit) = match_token-Takes is_known (c ∷ cs) found.0 found.1 e in
          let shorter : length found.1 + 1 ≤ length (c ∷ cs) =
            omega (arith, some_unit, ap length whole, length-append (source found.0) found.1) in
          rw (e, nodes_of)
            (ap (λ ns. flush plain ++ found.0 ∷ ns)
              (same_nodes is_known f g [] found.1 (omega (arith, shorter))
                (omega (arith, shorter))))
    ]

-- The loop ends within as many steps as the text has code units: with more fuel it gives the same nodes.
pub nodes_of-render_content :
    (is_known : List ℕ → Bool) (fuel : ℕ) (content : List ℕ)
    → length content ≤ fuel
    → nodes_of is_known fuel [] content ≡ render_content is_known content
unfolding render_content
nodes_of-render_content is_known fuel content h =
    same_nodes is_known fuel (length content) [] content h (omega arith)
