-- ===== src/Myinit/Tokens.antt =====
-- What `strtok_r` makes of a line: tokens without blanks, and the same again from the line that
-- joins them.
use unix_tasks.Prelude.{
  ℕ, ◌≡◌, refl, sym, ap, ◌∙◌, true, false, List, [], ◌∷◌, ◌++◌, append_assoc, append-nil, Bytes,
  Bool-cases, inl, inr,
}
use unix_tasks.Myinit.Config.{is_blank, emit, tokens_onto, tokens_of, join_onto, build_cmd_for_log}

-- No byte of it is blank.
abbrev pub NoBlank : Bytes → Type 0
NoBlank [] = Unit
NoBlank (c ∷ cs) = (is_blank c ≡ false) × NoBlank cs

-- A string that can be a token.
abbrev pub IsToken : Bytes → Type 0
IsToken [] = ⊥
IsToken (c ∷ cs) = NoBlank (c ∷ cs)

abbrev pub AreTokens : List Bytes → Type 0
AreTokens [] = Unit
AreTokens (t ∷ ts) = IsToken t × AreTokens ts

tokens_onto-blank :
    (token : Bytes) (c : ℕ) (cs : Bytes)
    → is_blank c ≡ true
    → tokens_onto token (c ∷ cs) ≡ emit token (tokens_of cs)
unfolding tokens_onto
tokens_onto-blank token c cs h = rw (tokens_onto, h) refl

tokens_onto-other :
    (token : Bytes) (c : ℕ) (cs : Bytes)
    → is_blank c ≡ false
    → tokens_onto token (c ∷ cs) ≡ tokens_onto (token ++ c ∷ []) cs
unfolding tokens_onto
tokens_onto-other token c cs h = rw (tokens_onto, h) refl

NoBlank-append : (a b : Bytes) → NoBlank a → NoBlank b → NoBlank (a ++ b)
NoBlank-append [] b p q = q
NoBlank-append (c ∷ cs) b (h, p) q = (h, NoBlank-append cs b p q)

emit-AreTokens :
    (token : Bytes) (more : List Bytes)
    → NoBlank token
    → AreTokens more
    → AreTokens (emit token more)
emit-AreTokens [] more p q = q
emit-AreTokens (c ∷ cs) more p q = (p, q)

pub tokens_onto-AreTokens :
    (token line : Bytes) → NoBlank token → AreTokens (tokens_onto token line)
unfolding tokens_onto
tokens_onto-AreTokens token [] p = emit-AreTokens token [] p tt
tokens_onto-AreTokens token (c ∷ cs) p = elim (Bool-cases (is_blank c)) [
  | inl blank ↦
      rw (tokens_onto-blank token c cs blank)
        (emit-AreTokens token _ p (tokens_onto-AreTokens [] cs tt))
  | inr other ↦
      rw (tokens_onto-other token c cs other)
        (tokens_onto-AreTokens (token ++ c ∷ []) cs (NoBlank-append token _ p (other, tt)))
]

-- A token is read to its end, and a blank ends it.
tokens_onto-append :
    (t token rest : Bytes)
    → NoBlank t
    → tokens_onto token (t ++ rest) ≡ tokens_onto (token ++ t) rest
unfolding tokens_onto
tokens_onto-append [] token rest p = ap (λ a. tokens_onto a rest) (sym (append-nil token))
tokens_onto-append (c ∷ cs) token rest (other, p) =
    rw (tokens_onto-other token c (cs ++ rest) other) (
      tokens_onto-append cs (token ++ c ∷ []) rest p
      ∙ ap (λ a. tokens_onto a rest) (append_assoc token (c ∷ []) cs))

pub tokens_of-blank :
    (t rest : Bytes) (b : ℕ)
    → IsToken t
    → is_blank b ≡ true
    → tokens_of (t ++ b ∷ rest) ≡ t ∷ tokens_of rest
tokens_of-blank [] rest b p h = absurd p
tokens_of-blank (c ∷ cs) rest b p h =
    tokens_onto-append (c ∷ cs) [] (b ∷ rest) p ∙ tokens_onto-blank (c ∷ cs) b rest h

pub tokens_of-token : (t : Bytes) → IsToken t → tokens_of t ≡ t ∷ []
tokens_of-token [] p = absurd p
tokens_of-token (c ∷ cs) p =
    ap tokens_of (sym (append-nil (c ∷ cs)))
    ∙ tokens_onto-append (c ∷ cs) [] [] p
    ∙ (unfold tokens_onto in refl)

-- Every argument behind a space.
abbrev pub spaced : List Bytes → Bytes
spaced [] = []
spaced (arg ∷ argv) = b' ' ∷ arg ++ spaced argv

pub join_onto-spaced :
    (c : ℕ) (out : Bytes) (argv : List Bytes) → join_onto (c ∷ out) argv ≡ (c ∷ out) ++ spaced argv
unfolding join_onto
join_onto-spaced c out [] = sym (append-nil (c ∷ out))
join_onto-spaced c out (arg ∷ argv) =
    join_onto-spaced c (out ++ b' ' ∷ arg) argv ∙ append_assoc (c ∷ out) (b' ' ∷ arg) (spaced argv)

pub build_cmd_for_log-spaced :
    (t : Bytes) (argv : List Bytes) → IsToken t → build_cmd_for_log (t ∷ argv) ≡ t ++ spaced argv
unfolding join_onto
build_cmd_for_log-spaced [] argv p = absurd p
build_cmd_for_log-spaced (c ∷ cs) argv p = join_onto-spaced c cs argv

tokens_of-spaced :
    (t : Bytes) (argv : List Bytes)
    → IsToken t
    → AreTokens argv
    → tokens_of (t ++ spaced argv) ≡ t ∷ argv
tokens_of-spaced t [] p q = ap tokens_of (append-nil t) ∙ tokens_of-token t p
tokens_of-spaced t (a ∷ argv) p (q, qs) =
    tokens_of-blank t (a ++ spaced argv) b' ' p refl ∙ ap (◌∷◌ t) (tokens_of-spaced a argv q qs)

-- When every argument is a word, with a byte in it and no blank, the words of `cmd_for_log` are the
-- arguments: splitting what `build_cmd_for_log` has joined gives them back, so that no two such lists
-- of arguments have the same `cmd_for_log`.
pub tokens_of-build_cmd_for_log :
    (argv : List Bytes) → AreTokens argv → tokens_of (build_cmd_for_log argv) ≡ argv
unfolding tokens_onto join_onto
tokens_of-build_cmd_for_log [] p = refl
tokens_of-build_cmd_for_log (t ∷ argv) (p, ps) =
    ap tokens_of (build_cmd_for_log-spaced t argv p) ∙ tokens_of-spaced t argv p ps
