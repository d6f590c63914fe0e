-- ===== src/Shell/Tokens/Blanked.antt =====
-- kernel/Console/Shell.c, the bytes and the offsets that the loop of `tokenize_command` stores.
use charcoalos.Shell.Tokens.{is_space}
use charcoalos.Prelude.{
  ℕ, zero, suc, ◌+◌, ◌≡◌, refl, Bool, true, false, List, [], ◌∷◌, if◌then◌else◌, Bytes,
}

-- What the loop does to the text that is left, and the offsets that it stores.
unfoldable pub blanked : Bool → ℕ → Bytes → Bytes
blanked between room [] = []
blanked between room (c ∷ cs) =
    if is_space c
    then 0 ∷ blanked true room cs
    else if between
    then elim room [ zero ↦ c ∷ cs | suc left ↦ c ∷ blanked false left cs ]
    else c ∷ blanked false room cs

unfoldable pub starts : ℕ → Bool → ℕ → Bytes → List ℕ
starts i between room [] = []
starts i between room (c ∷ cs) =
    if is_space c
    then starts (i + 1) true room cs
    else if between
    then elim room [ zero ↦ [] | suc left ↦ i ∷ starts (i + 1) false left cs ]
    else starts (i + 1) false room cs

module _ (c : ℕ) (cs : Bytes) where
  pub blanked-space :
      (b : Bool) (room : ℕ) → is_space c ≡ true → blanked b room (c ∷ cs) ≡ 0 ∷ blanked true room cs
  unfolding blanked
  blanked-space b room space = rw space refl

  pub blanked-plain :
      (room : ℕ) → is_space c ≡ false → blanked false room (c ∷ cs) ≡ c ∷ blanked false room cs
  unfolding blanked
  blanked-plain room plain = rw plain refl

  pub blanked-start :
      (room : ℕ) → is_space c ≡ false → blanked true (suc room) (c ∷ cs) ≡ c ∷ blanked false room cs
  unfolding blanked
  blanked-start room plain = rw plain refl

  pub starts-space :
      (i : ℕ) (b : Bool) (room : ℕ)
      → is_space c ≡ true
      → starts i b room (c ∷ cs) ≡ starts (i + 1) true room cs
  unfolding starts
  starts-space i b room space = rw space refl

  pub starts-plain :
      (i room : ℕ)
      → is_space c ≡ false
      → starts i false room (c ∷ cs) ≡ starts (i + 1) false room cs
  unfolding starts
  starts-plain i room plain = rw plain refl

  pub starts-start :
      (i room : ℕ)
      → is_space c ≡ false
      → starts i true (suc room) (c ∷ cs) ≡ i ∷ starts (i + 1) false room cs
  unfolding starts
  starts-start i room plain = rw plain refl
