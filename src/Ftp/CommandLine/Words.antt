-- ===== src/Ftp/CommandLine/Words.antt =====
-- Lab1/My Codes/ftp_client.cpp: the words of a line.
use computer_network_labs.Prelude.{
  ℕ, zero, suc, ◌≡◌, refl, ap, sym, ◌∙◌, true, false, List, [], ◌∷◌, ◌++◌, map, drop, take, All,
}
use computer_network_labs.Ftp.CommandLine.{
  is_delimiter, skip_delimiters, token, after_token, tokens, parse_line, CmdlineTokens,
}

-- Delimiters only.
abbrev pub IsGap : List ℕ → Type 0
IsGap = All (λ c. is_delimiter c ≡ true)

-- Characters of which none is a delimiter.
abbrev pub IsPlain : List ℕ → Type 0
IsPlain = All (λ c. is_delimiter c ≡ false)

-- A word, and what is behind it up to the next word: one delimiter and any number of others.
pub record Item : Type 0 where
  pub first : ℕ
  pub rest : List ℕ
  pub delimiter : ℕ
  pub gap : List ℕ

abbrev pub word : Item → List ℕ
word i = i.first ∷ i.rest

pub record IsItem (i : Item) : Type 0 where
  pub first : is_delimiter i.first ≡ false
  pub rest : IsPlain i.rest
  pub delimiter : is_delimiter i.delimiter ≡ true
  pub gap : IsGap i.gap

-- The line of these items with `end` behind them.
abbrev pub layout : List Item → List ℕ → List ℕ
layout [] end = end
layout (i ∷ is) end = word i ++ (i.delimiter ∷ (i.gap ++ layout is end))

-- Nothing, or a delimiter first.
StartsGap : List ℕ → Type 0
StartsGap [] = Unit
StartsGap (c ∷ cs) = is_delimiter c ≡ true

IsGap-StartsGap : (gap : List ℕ) → IsGap gap → StartsGap gap
unfolding StartsGap
IsGap-StartsGap [] h = tt
IsGap-StartsGap (c ∷ cs) h = h.0

skip_delimiters-gap :
    (gap cs : List ℕ) → IsGap gap → skip_delimiters (gap ++ cs) ≡ skip_delimiters cs
unfolding skip_delimiters
skip_delimiters-gap [] cs h = refl
skip_delimiters-gap (c ∷ gap) cs h = rw (h.0) (skip_delimiters-gap gap cs h.1)

skip_delimiters-all : (gap : List ℕ) → IsGap gap → skip_delimiters gap ≡ []
unfolding skip_delimiters
skip_delimiters-all [] h = refl
skip_delimiters-all (c ∷ gap) h = rw (h.0) (skip_delimiters-all gap h.1)

pub tokens_gap : (room : ℕ) (gap : List ℕ) → IsGap gap → tokens room gap ≡ []
unfolding tokens
tokens_gap zero gap h = refl
tokens_gap (suc room) gap h = rw (skip_delimiters-all gap h, tokens) refl

token-word :
    (w tail : List ℕ)
    → IsPlain w
    → StartsGap tail
    → (token (w ++ tail) ≡ w) × (after_token (w ++ tail) ≡ tail)
unfolding token after_token StartsGap
token-word [] [] h e = (refl, refl)
token-word [] (d ∷ cs) h e = rw e (refl, refl)
token-word (c ∷ w) tail h e =
    let (t, a) = token-word w tail h.1 e in rw (h.0) (ap (λ t. c ∷ t) t, a)

-- One word behind a gap.
tokens-word :
    (room : ℕ) (gap : List ℕ) (first : ℕ) (rest tail : List ℕ)
    → IsGap gap
    → is_delimiter first ≡ false
    → IsPlain rest
    → StartsGap tail
    → tokens (suc room) (gap ++ (first ∷ (rest ++ tail)))
      ≡ (first ∷ rest) ∷ tokens room (drop 1 tail)
unfolding tokens
tokens-word room gap first rest tail g plain h e =
    let (t, a) = token-word (first ∷ rest) tail (plain, h) e in
    let skipped : skip_delimiters (first ∷ (rest ++ tail)) ≡ first ∷ (rest ++ tail) =
      unfold skip_delimiters in rw plain refl in
    rw (skip_delimiters-gap gap (first ∷ (rest ++ tail)) g, skipped, tokens, t, a) refl

IsGap-drop : (gap : List ℕ) → IsGap gap → IsGap (drop 1 gap)
IsGap-drop [] h = tt
IsGap-drop (c ∷ gap) h = h.1

pub tokens-layout :
    (room : ℕ) (gap : List ℕ) (is : List Item) (first : ℕ) (rest tail : List ℕ)
    → IsGap gap
    → All IsItem is
    → is_delimiter first ≡ false
    → IsPlain rest
    → IsGap tail
    → tokens room (gap ++ layout is (first ∷ (rest ++ tail)))
      ≡ take room (map word is ++ ((first ∷ rest) ∷ []))
unfolding StartsGap
tokens-layout zero gap is first rest tail g h plain r t = unfold tokens in refl
tokens-layout (suc room) gap [] first rest tail g h plain r t =
    tokens-word room gap first rest tail g plain r (IsGap-StartsGap tail t)
    ∙ ap (λ x. (first ∷ rest) ∷ x)
        (tokens_gap room (drop 1 tail) (IsGap-drop tail t) ∙ sym (nothing room))
  where
    nothing : (n : ℕ) → ◌≡◌ {A = List (List ℕ)} (take n []) []
    nothing zero = refl
    nothing (suc n) = refl
tokens-layout (suc room) gap (i ∷ is) first rest tail g h plain r t =
    tokens-word room gap i.first i.rest
      (i.delimiter ∷ (i.gap ++ layout is (first ∷ (rest ++ tail)))) g h.0.first h.0.rest
      h.0.delimiter
    ∙ ap (λ x. word i ∷ x) (tokens-layout room i.gap is first rest tail h.0.gap h.1 plain r t)

-- A line of words with one or more delimiters between them, and any number of delimiters before the
-- first and behind the last: `argv` has the first 127 of the words, in order.
parse_line-argv :
    (gap : List ℕ) (is : List Item) (first : ℕ) (rest tail : List ℕ) (tok : CmdlineTokens)
    → IsGap gap
    → All IsItem is
    → is_delimiter first ≡ false
    → IsPlain rest
    → IsGap tail
    → (parse_line (gap ++ layout is (first ∷ (rest ++ tail))) tok).1.argv
      ≡ take 127 (map word is ++ ((first ∷ rest) ∷ []))
unfolding parse_line
parse_line-argv gap is first rest tail tok g h plain r t =
    argv_of (tokens 127 (gap ++ layout is (first ∷ (rest ++ tail)))) refl
    ∙ tokens-layout 127 gap is first rest tail g h plain r t
  where
    argv_of :
        (ts : List (List ℕ))
        → tokens 127 (gap ++ layout is (first ∷ (rest ++ tail))) ≡ ts
        → (parse_line (gap ++ layout is (first ∷ (rest ++ tail))) tok).1.argv ≡ ts
    argv_of [] e = rw (e, parse_line) refl
    argv_of (x ∷ xs) e = rw (e, parse_line) refl
