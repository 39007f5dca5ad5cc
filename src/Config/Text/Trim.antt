-- ===== src/Config/Text/Trim.antt =====
-- What `trim` removes.
use xiaozhi.Base.{ℕ, ◌≡◌, ◌≢◌, refl, true, false, [], ◌∷◌, ◌++◌, some, arith}
use xiaozhi.Base.Strings.{Bytes}
use xiaozhi.Config.Text.{is_space, skip_space, strip_space, trim, cut}

abbrev pub AllSpace : Bytes → Type 0
AllSpace [] = Unit
AllSpace (c ∷ s) = (is_space c ≡ true) × AllSpace s

-- The first byte is no space, and the last is none.
abbrev pub StartsInk : Bytes → Type 0
StartsInk [] = Unit
StartsInk (c ∷ s) = is_space c ≡ false

abbrev pub EndsInk : Bytes → Type 0
EndsInk [] = Unit
EndsInk (c ∷ []) = is_space c ≡ false
EndsInk (c ∷ d ∷ s) = EndsInk (d ∷ s)

skip_space-append : (pad s : Bytes) → AllSpace pad → skip_space (pad ++ s) ≡ skip_space s
unfolding skip_space
skip_space-append [] s h = refl
skip_space-append (c ∷ pad) s h = rw h.0 (skip_space-append pad s h.1)

skip_space_ink : (s t : Bytes) → s ≢ [] → StartsInk s → skip_space (s ++ t) ≡ s ++ t
unfolding skip_space
skip_space_ink [] t ne h = absurd (ne refl)
skip_space_ink (c ∷ s) t ne h = rw h

strip_space_blank : (pad : Bytes) → AllSpace pad → strip_space pad ≡ []
unfolding strip_space
strip_space_blank [] h = refl
strip_space_blank (c ∷ pad) h = rw (strip_space_blank pad h.1, h.0)

skip_space_blank : (pad : Bytes) → AllSpace pad → skip_space pad ≡ []
unfolding skip_space
skip_space_blank [] h = refl
skip_space_blank (c ∷ pad) h = rw h.0 (skip_space_blank pad h.1)

strip_space_ink : (s pad : Bytes) → EndsInk s → AllSpace pad → strip_space (s ++ pad) ≡ s
unfolding strip_space
strip_space_ink [] pad e h = strip_space_blank pad h
strip_space_ink (c ∷ []) pad e h = rw (strip_space_blank pad h, e)
strip_space_ink (c ∷ d ∷ s) pad e h = ground (arith, strip_space_ink (d ∷ s) pad e h)

pub trim_blank : (pad : Bytes) → AllSpace pad → trim pad ≡ []
unfolding trim strip_space
trim_blank pad h = rw (skip_space_blank pad h)

-- `trim` removes just the spaces round a text that neither starts nor ends in one.
pub trim_lem :
    (before s after : Bytes)
    → AllSpace before
    → StartsInk s
    → EndsInk s
    → AllSpace after
    → trim (before ++ (s ++ after)) ≡ s
unfolding trim strip_space
trim_lem before [] after b start end a =
    rw (skip_space-append before after b, skip_space_blank after a)
trim_lem before (c ∷ s) after b start end a =
    rw (skip_space-append before (c ∷ (s ++ after)) b, skip_space_ink (c ∷ s) after (λ e. cc) start)
      (strip_space_ink (c ∷ s) after end a)

-- No byte of the text is `c`.
abbrev pub Lacks : ℕ → Bytes → Type 0
Lacks c [] = Unit
Lacks c (x ∷ s) = (x ≢ c) × Lacks c s

-- `strchr` finds the first `c`.
pub cut-append : (c : ℕ) (a b : Bytes) → Lacks c a → cut c (a ++ c ∷ b) ≡ some (a, b)
unfolding cut
cut-append c [] b h = ground arith
cut-append c (x ∷ a) b h = ground (arith, cut-append c a b h.1)

pub Lacks-append : (c : ℕ) (a b : Bytes) → Lacks c a → Lacks c b → Lacks c (a ++ b)
Lacks-append c [] b h k = k
Lacks-append c (x ∷ a) b h k = (h.0, Lacks-append c a b h.1 k)
