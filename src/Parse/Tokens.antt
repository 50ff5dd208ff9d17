-- ===== src/Parse/Tokens.antt =====
-- src/glb_misc.c: splitting a string into tokens, `glb_parse_token_string`. A character is its code.
use glb.Common.{
  ℕ, ◌+◌, ◌≡◌, Bool, false, not, ◌&&◌, ◌||◌, Option, none, some, List, [], ◌∷◌, length, leb, ◌==◌,
  arith, inl, inr, Bool-cases, OnSome, if◌then◌else◌,
}

-- `isspace` in the C locale
unfoldable pub isspace : ℕ → Bool
isspace c = c == 32 || (leb 9 c && leb c 13)

-- Separators become NUL, but for the first character, which is not looked at.
unfoldable pub cut : ℕ → List ℕ → List ℕ
unfolding isspace
cut sep [] = []
cut sep (c ∷ cs) = (if isspace c || c == sep then 0 else c) ∷ cut sep cs

-- The first loop, after a character `prev`: the ends of tokens, the NUL that ends the string included.
unfoldable count_ends : ℕ → List ℕ → ℕ
count_ends prev [] = if prev == 0 then 0 else 1
count_ends prev (c ∷ cs) = (if c == 0 && not (prev == 0) then 1 else 0) + count_ends c cs

-- The rest of a token: up to the next NUL.
unfoldable pub token : List ℕ → List ℕ
token [] = []
token (c ∷ cs) = if c == 0 then [] else c ∷ token cs

-- The second loop, after a character `prev`: the tokens that begin later.
unfoldable later_tokens : ℕ → List ℕ → List (List ℕ)
unfolding token
later_tokens prev [] = []
later_tokens prev (c ∷ cs) =
    if prev == 0 && not (c == 0) then token (c ∷ cs) ∷ later_tokens c cs else later_tokens c cs

-- The tokens, and how many entries the list was allocated with; none on an empty string.
unfoldable pub parse_token_string : List ℕ → ℕ → Option (List (List ℕ) × ℕ)
unfolding cut count_ends later_tokens
parse_token_string [] sep = none
parse_token_string (c ∷ cs) sep =
    let marked = cut sep cs in
    some (token (c ∷ marked) ∷ later_tokens c marked, count_ends c marked)

ends-later :
    (prev : ℕ) (cs : List ℕ)
    → count_ends prev cs ≡ (if prev == 0 then 0 else 1) + length (later_tokens prev cs)
unfolding count_ends later_tokens
ends-later prev [] = ground arith
ends-later prev (c ∷ cs) =
    let rest = ends-later c cs in
    elim (Bool-cases (prev == 0)) [
      | inl e ↦ elim (Bool-cases (c == 0)) [
        | inl f ↦ rw (e, f) (omega (arith, rw f at rest))
        | inr f ↦ rw (e, f) (omega (arith, rw f at rest))
      ]
      | inr e ↦ elim (Bool-cases (c == 0)) [
        | inl f ↦ rw (e, f) (omega (arith, rw f at rest))
        | inr f ↦ rw (e, f) (omega (arith, rw f at rest))
      ]
    ]

-- The tokens of a string that does not begin with NUL are as many as the entries that were
-- allocated for them: no token is written past the end of the list, and no entry is left unset.
pub tokens_fit :
    (c : ℕ) (cs : List ℕ) (sep : ℕ)
    → (c == 0) ≡ false
    → OnSome (λ (p : List (List ℕ) × ℕ). length p.0 ≡ p.1) (parse_token_string (c ∷ cs) sep)
unfolding parse_token_string
tokens_fit c cs sep h = let fit = ends-later c (cut sep cs) in omega (arith, rw h at fit)
