-- ===== src/Encryption/Format.antt =====
-- The four parts of an encrypted text come back from their joined form.
use text.Mathlib.TextLemmas.{nil-append, cons-append}
use af_auth.Base.{
  List, [], length, refl, arith, String, ◌≡◌, some, ◌∷◌, ◌+++◌, split, Lacks, split-append,
  split-Lacks,
}
use af_auth.Encryption.{Parts, parts_of, join_parts, four_parts}

-- No part holds a colon.
abbrev pub IsColonFree : Parts → Type 0
IsColonFree p =
    Lacks b':' p.salt × Lacks b':' p.iv × Lacks b':' p.auth_tag × Lacks b':' p.ciphertext

split-colon : (a b : String) → Lacks b':' a → split b':' (a +++ ":" +++ b) ≡ a ∷ split b':' b
split-colon a b h = rw (cons-append, nil-append) (split-append ":" a b h)

-- Parts without colons are read back from their joined form.
pub parts_of-join_parts : (p : Parts) → IsColonFree p → parts_of (join_parts p) ≡ some p
unfolding parts_of join_parts
parts_of-join_parts p (a, b, c, d) = rw (
  split-colon p.salt _ a,
  split-colon p.iv _ b,
  split-colon p.auth_tag _ c,
  split-Lacks b':' p.ciphertext d,
)

four_parts-length : (ps : List String) (p : Parts) → four_parts ps ≡ some p → length ps ≡ 4
unfolding four_parts
four_parts-length [] p h = absurd (ground arith)
four_parts-length (a ∷ []) p h = absurd (ground arith)
four_parts-length (a ∷ b ∷ []) p h = absurd (ground arith)
four_parts-length (a ∷ b ∷ c ∷ []) p h = absurd (ground arith)
four_parts-length (a ∷ b ∷ c ∷ d ∷ []) p h = refl
four_parts-length (a ∷ b ∷ c ∷ d ∷ e ∷ ps) p h = absurd (ground arith)

-- A text with parts has four between its colons.
pub parts_of-length : (t : String) (p : Parts) → parts_of t ≡ some p → length (split b':' t) ≡ 4
unfolding parts_of
parts_of-length t p h = four_parts-length (split b':' t) p h
