-- ===== src/Timeline/Content.antt =====
-- frontend/src/components/messages/MessageContent.tsx: a message's text with its formatting. A text is the
-- list of its UTF-16 code units, on which the pattern works. Each alternative of the pattern takes the
-- longest run of its class, which what follows the run cannot continue, so the search never goes back.
use bu3li_comms.Prelude.{
  ℕ, zero, suc, leb, eqb, Bool, not, ◌&&◌, ◌||◌, if◌then◌else◌, Option, none, some, List, [], ◌∷◌,
  ◌++◌, length,
}

pub data Node : Type 0 where
  text code bold italic link : List ℕ → Node
  mention : (is_known : Bool) → List ℕ → Node

-- the longest run of a class, and what follows it
unfoldable pub span : (ℕ → Bool) → List ℕ → List ℕ × List ℕ
span p [] = ([], [])
span p (c ∷ cs) = let (run, rest) = span p cs in if p c then (c ∷ run, rest) else ([], c ∷ cs)

-- what follows a prefix
unfoldable pub after : List ℕ → List ℕ → Option (List ℕ)
after [] cs = some cs
after (p ∷ ps) [] = none
after (p ∷ ps) (c ∷ cs) = if eqb p c then after ps cs else none

-- an opening, a longest run of a class that is not empty, and a closing
unfoldable pub match_between :
    (opening closing : List ℕ) → (ℕ → Bool) → List ℕ → Option (List ℕ × List ℕ)
unfolding span after
match_between opening closing p cs = elim (after opening cs) [
  | none ↦ none
  | some inner ↦ elim (span p inner).0 [
    | [] ↦ none
    | c ∷ run ↦ elim (after closing (span p inner).1) [
      | none ↦ none
      | some rest ↦ some (c ∷ run, rest)
    ]
  ]
]

-- the units of a backquote, an asterisk, a line feed and an at sign
abbrev pub backquote : ℕ
backquote = 96

abbrev pub asterisk : ℕ
asterisk = 42

abbrev pub line_feed : ℕ
line_feed = 10

abbrev pub at_sign : ℕ
at_sign = 64

-- "https://" and "http://"
abbrev pub https : List ℕ
https = 104 ∷ 116 ∷ 116 ∷ 112 ∷ 115 ∷ 58 ∷ 47 ∷ 47 ∷ []

abbrev pub http : List ℕ
http = 104 ∷ 116 ∷ 116 ∷ 112 ∷ 58 ∷ 47 ∷ 47 ∷ []

abbrev pub is_between : ℕ → ℕ → ℕ → Bool
is_between low high c = leb low c && leb c high

-- `\s`
abbrev pub is_space : ℕ → Bool
is_space c =
    is_between 9 13 c
    || eqb c 32
    || eqb c 0xa0
    || eqb c 0x1680
    || is_between 0x2000 0x200a c
    || is_between 0x2028 0x2029 c
    || eqb c 0x202f
    || eqb c 0x205f
    || eqb c 0x3000
    || eqb c 0xfeff

-- `[^`\n]`, `[^*\n]`, `[^\s<]` and `[A-Za-z0-9_]`
abbrev pub is_code : ℕ → Bool
is_code c = not (eqb c backquote) && not (eqb c line_feed)

abbrev pub is_emphasised : ℕ → Bool
is_emphasised c = not (eqb c asterisk) && not (eqb c line_feed)

abbrev pub is_link : ℕ → Bool
is_link c = not (is_space c) && not (eqb c 60)

abbrev pub is_word : ℕ → Bool
is_word c = is_between 65 90 c || is_between 97 122 c || is_between 48 57 c || eqb c 95

-- the first of two results
abbrev pub or_else : {A : Type 0} → Option A → Option A → Option A
or_else none other = other
or_else (some a) other = some a

abbrev pub on_match : (List ℕ → Node) → Option (List ℕ × List ℕ) → Option (Node × List ℕ)
on_match f none = none
on_match f (some r) = some (f r.0, r.1)

abbrev pub flush : List ℕ → List Node
flush [] = []
flush (c ∷ cs) = text (c ∷ cs) ∷ []

module _ (is_known : List ℕ → Bool) where
  -- the alternatives, at the start of a text
  unfoldable pub match_token : List ℕ → Option (Node × List ℕ)
  unfolding match_between
  match_token cs =
      or_else (on_match code (match_between (backquote ∷ []) (backquote ∷ []) is_code cs)) (
        or_else
          (on_match bold
            (match_between (asterisk ∷ asterisk ∷ []) (asterisk ∷ asterisk ∷ []) is_emphasised cs))
          (or_else
            (on_match italic (match_between (asterisk ∷ []) (asterisk ∷ []) is_emphasised cs))
            (or_else (on_match (λ run. link (https ++ run)) (match_between https [] is_link cs)) (
              or_else (on_match (λ run. link (http ++ run)) (match_between http [] is_link cs)) (
                on_match (λ run. mention (is_known run) run)
                  (match_between (at_sign ∷ []) [] is_word cs))))))

  -- The loop: `plain` is the text since the last token. Each step takes some of the text, so that a text's
  -- length is fuel enough.
  unfoldable pub nodes_of : ℕ → (plain cs : List ℕ) → List Node
  unfolding match_token
  nodes_of fuel plain [] = flush plain
  nodes_of zero plain (c ∷ cs) = flush plain
  nodes_of (suc fuel) plain (c ∷ cs) = elim (match_token (c ∷ cs)) [
    | none ↦ nodes_of fuel (plain ++ c ∷ []) cs
    | some found ↦ flush plain ++ found.0 ∷ nodes_of fuel [] found.1
  ]

  unfoldable pub render_content : List ℕ → List Node
  unfolding nodes_of
  render_content content = nodes_of (length content) [] content
